-- ===== src/Vma/Punch.antt =====
-- The hole of `mmap_fixed` in kernel/src/vma.rs: the areas that `punch_hole` collects, and what it
-- leaves of them.
use ferrum_os.Prelude.{
  ℕ, suc, ◌≤◌, ◌<◌, ◌≡◌, refl, ap, ◌∙◌, some, List, [], ◌∷◌, arith, if◌then◌else◌, ltb, leb,
  Bool-cases, inl, inr, drop,
}
use ferrum_os.Vma.{Vma, contains, partition_point, lower_bound}
use ferrum_os.Vma.Area.{first_overlap, take_below, overlapping}
use ferrum_os.Vma.Cover.{area_at, area_at-below, IsSorted, IsSorted-le}

-- the areas from the first that ends behind `lo` on
skip : ℕ → List Vma → List Vma
skip lo [] = []
skip lo (v ∷ vs) = if leb v.end lo then skip lo vs else v ∷ vs

skip-above : (lo hole : ℕ) (vs : List Vma) → IsSorted lo vs → hole ≤ lo → skip hole vs ≡ vs
unfolding skip
skip-above lo hole [] s h = refl
skip-above lo hole (v ∷ vs) s h = ground (arith, s.0, s.1)

abbrev drop_first : List Vma → ℕ → ℕ → List Vma
drop_first vs hole i = drop (first_overlap vs hole i) vs

drop_first-cons :
    (v : Vma) (vs : List Vma) (hole j : ℕ)
    → drop_first (v ∷ vs) hole (suc (suc j)) ≡ drop_first vs hole (suc j)
drop_first-cons v vs hole j = ground arith

drop_past :
    (lo : ℕ) (v : Vma) (vs : List Vma) (hole : ℕ)
    → IsSorted lo (v ∷ vs)
    → v.start < hole
    → drop_first (v ∷ vs) hole (suc (lower_bound vs hole)) ≡ skip hole (v ∷ vs)
unfolding skip lower_bound partition_point
drop_past lo v [] hole s h = ground arith
drop_past lo v (w ∷ vs) hole s h = elim (Bool-cases (ltb w.start hole)) [
  | inl c ↦ rw (c, drop_first-cons) (ground (arith, drop_past v.end w vs hole s.2))
  | inr c ↦ rw c (ground (arith, skip-above v.end hole (w ∷ vs)))
]

drop-eq-skip :
    (lo : ℕ) (vs : List Vma) (hole : ℕ)
    → IsSorted lo vs
    → drop_first vs hole (lower_bound vs hole) ≡ skip hole vs
unfolding lower_bound partition_point skip
drop-eq-skip lo [] hole s = refl
drop-eq-skip lo (v ∷ vs) hole s = elim (Bool-cases (ltb v.start hole)) [
  | inl c ↦ rw c (drop_past lo v vs hole s (ground arith))
  | inr c ↦ rw c (ground arith)
]

overlapping-eq :
    (lo : ℕ) (vs : List Vma) (hole end : ℕ)
    → IsSorted lo vs
    → overlapping vs hole end ≡ take_below end (skip hole vs)
unfolding overlapping
overlapping-eq lo vs hole end s = ap (take_below end) (drop-eq-skip lo vs hole s)

area_at-skip : (vs : List Vma) (hole a : ℕ) → hole ≤ a → area_at (skip hole vs) a ≡ area_at vs a
unfolding skip area_at contains
area_at-skip [] hole a h = refl
area_at-skip (v ∷ vs) hole a h = ground (arith, area_at-skip vs hole a h)

area_at-take_below :
    (lo : ℕ) (vs : List Vma) (end a : ℕ)
    → IsSorted lo vs
    → a < end
    → area_at (take_below end vs) a ≡ area_at vs a
unfolding take_below area_at contains
area_at-take_below lo [] end a s h = refl
area_at-take_below lo (v ∷ vs) end a s h =
    ground (arith, area_at-take_below v.end vs end a s.2, area_at-below v.end vs a s.2)

skip-IsSorted : (lo : ℕ) (vs : List Vma) (hole : ℕ) → IsSorted lo vs → IsSorted lo (skip hole vs)
unfolding skip
skip-IsSorted lo [] hole s = tt
skip-IsSorted lo (v ∷ vs) hole s = elim (Bool-cases (leb v.end hole)) [
  | inl c ↦
      rw c (IsSorted-le lo v.end _ (omega (arith, s.0, s.1)) (skip-IsSorted v.end vs hole s.2))
  | inr c ↦ rw c s
]

take_below-IsSorted :
    (lo : ℕ) (vs : List Vma) (end : ℕ) → IsSorted lo vs → IsSorted lo (take_below end vs)
unfolding take_below
take_below-IsSorted lo [] end s = tt
take_below-IsSorted lo (v ∷ vs) end s = elim (Bool-cases (ltb v.start end)) [
  | inl c ↦ rw c (s.0, s.1, take_below-IsSorted v.end vs end s.2)
  | inr c ↦ rw c tt
]

-- Areas of `vs` that reach into the hole.
abbrev pub IsCut : List Vma → ℕ → ℕ → List Vma → Type 0
IsCut vs hole end [] = Unit {0}
IsCut vs hole end (v ∷ ov) =
    (area_at vs v.start ≡ some v) × (hole < v.end) × (v.start < end) × IsCut vs hole end ov

take_below-IsCut :
    (vs : List Vma) (lo hole end : ℕ) (l : List Vma)
    → hole ≤ lo
    → IsSorted lo l
    → ((a : ℕ) (w : Vma) → lo ≤ a → area_at l a ≡ some w → area_at vs a ≡ some w)
    → IsCut vs hole end (take_below end l)
unfolding take_below area_at contains
take_below-IsCut vs lo hole end [] h s f = tt
take_below-IsCut vs lo hole end (v ∷ l) h s f = elim (Bool-cases (ltb v.start end)) [
  | inl c ↦ rw c (
    f v.start v s.0 (ground arith),
    omega (arith, s.0, s.1),
    ground arith,
    take_below-IsCut vs v.end hole end l (omega (arith, s.0, s.1)) s.2
        (λ a w k e. f a w (omega (arith, s.0, s.1)) (ground arith)),
  )
  | inr c ↦ rw c tt
]

skip-IsCut :
    (vs : List Vma) (lo hole end : ℕ) (l : List Vma)
    → IsSorted lo l
    → ((a : ℕ) (w : Vma) → lo ≤ a → area_at l a ≡ some w → area_at vs a ≡ some w)
    → IsCut vs hole end (take_below end (skip hole l))
unfolding skip take_below area_at contains
skip-IsCut vs lo hole end [] s f = tt
skip-IsCut vs lo hole end (v ∷ l) s f = elim (Bool-cases (leb v.end hole)) [
  | inl c ↦ rw c (skip-IsCut vs v.end hole end l s.2 behind)
  | inr c ↦ rw c (elim (Bool-cases (ltb v.start end)) [
    | inl d ↦ rw d (
      f v.start v s.0 (ground arith),
      ground arith,
      ground arith,
      take_below-IsCut vs v.end hole end l (ground arith) s.2 behind,
    )
    | inr d ↦ rw d tt
  ])
]
  where
    behind : (a : ℕ) (w : Vma) → v.end ≤ a → area_at l a ≡ some w → area_at vs a ≡ some w
    behind a w k e = f a w (omega (arith, s.0, s.1)) (ground arith)

-- `punch_hole` collects exactly the areas over addresses of the hole.
pub overlapping_lem :
    (vs : List Vma) (hole end : ℕ)
    → IsSorted 0 vs
    → IsSorted 0 (overlapping vs hole end)
      × IsCut vs hole end (overlapping vs hole end)
      × ((a : ℕ) → hole ≤ a → a < end → area_at (overlapping vs hole end) a ≡ area_at vs a)
overlapping_lem vs hole end s = rw (overlapping-eq 0 vs hole end s) (
  take_below-IsSorted 0 _ end (skip-IsSorted 0 vs hole s),
  skip-IsCut vs 0 hole end vs s (λ a w k e. e),
  λ a k l.
      area_at-take_below 0 (skip hole vs) end a (skip-IsSorted 0 vs hole s) l
      ∙ area_at-skip vs hole a k,
)
