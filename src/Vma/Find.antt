-- ===== src/Vma/Find.antt =====
-- `find_vma` and `remove_vma`, which search by bisection, against walks through the whole list.
use ferrum_os.Prelude.{
  ℕ, suc, ◌≤◌, ◌<◌, ◌≡◌, ◌≢◌, refl, true, Option, none, some, List, [], ◌∷◌, arith, if◌then◌else◌,
  ltb, leb, ◌==◌, Bool-cases, inl, inr,
}
use ferrum_os.Vma.{Vma, contains, partition_point, find_at, find_vma, remove_vma_at, remove_vma}
use ferrum_os.Vma.Cover.{area_at, area_at-below, attr_at, IsSorted, IsSorted-le, attr_at-below}

find_past :
    (lo : ℕ) (v : Vma) (vs : List Vma) (a : ℕ)
    → IsSorted lo (v ∷ vs)
    → v.start ≤ a
    → find_at (v ∷ vs) (suc (partition_point (λ w. leb w.start a) vs)) a ≡ area_at (v ∷ vs) a
unfolding partition_point area_at
find_past lo v [] a s h = refl
find_past lo v (w ∷ vs) a s h = elim (Bool-cases (leb w.start a)) [
  | inl c ↦ rw c (ground (arith, find_past v.end w vs a s.2))
  | inr c ↦ rw c (ground (arith, area_at-below w.start (w ∷ vs) a))
]

-- On sorted areas the bisection of find_vma finds the area over an address that a walk through all
-- areas finds, or none as the walk does.
pub find_vma-eq-area_at :
    (lo : ℕ) (vs : List Vma) (a : ℕ) → IsSorted lo vs → find_vma vs a ≡ area_at vs a
unfolding find_vma area_at
find_vma-eq-area_at lo [] a s = refl
find_vma-eq-area_at lo (v ∷ vs) a s = elim (Bool-cases (leb v.start a)) [
  | inl c ↦ ground (arith, find_past lo v vs a s (ground arith))
  | inr c ↦ rw c (ground (arith, area_at-below v.start (v ∷ vs) a))
]

-- the area that starts at an address, and the list without it
unfoldable pub take_start : List Vma → ℕ → Option (Vma × List Vma)
take_start [] start = none
take_start (v ∷ vs) start =
    if v.start == start
    then some (v, vs)
    else elim (take_start vs start) [ none ↦ none | some (w, ws) ↦ some (w, v ∷ ws) ]

take_start-below :
    (lo : ℕ) (vs : List Vma) (a : ℕ) → IsSorted lo vs → a < lo → take_start vs a ≡ none
unfolding take_start
take_start-below lo [] a s h = refl
take_start-below lo (v ∷ vs) a s h = ground (arith, take_start-below v.end vs a s.2)

remove_vma_at-cons :
    (v : Vma) (vs : List Vma) (k a : ℕ)
    → v.start < a
    → remove_vma_at vs k a ≡ take_start vs a
    → remove_vma_at (v ∷ vs) (suc k) a ≡ take_start (v ∷ vs) a
unfolding take_start
remove_vma_at-cons v vs k a h e = ground arith

pub remove_vma-eq-take_start :
    (lo : ℕ) (vs : List Vma) (a : ℕ) → IsSorted lo vs → remove_vma vs a ≡ take_start vs a
unfolding remove_vma
remove_vma-eq-take_start lo [] a s = unfold take_start in refl
remove_vma-eq-take_start lo (v ∷ vs) a s = elim (Bool-cases (ltb v.start a)) [
  | inl c ↦
      rw c (remove_vma_at-cons v vs _ a (ground arith) (remove_vma-eq-take_start v.end vs a s.2))
  | inr c ↦ rw c (unfold take_start in ground (arith, take_start-below v.end vs a s.2))
]

-- What `remove_vma` owes its caller.
abbrev pub Removed : ℕ → List Vma → ℕ → Option (Vma × List Vma) → Type 0
Removed lo vs start none = (a : ℕ) (v : Vma) → area_at vs a ≡ some v → v.start ≢ start
Removed lo vs start (some (v, rest)) =
    (v.start ≡ start)
    × (v.start < v.end)
    × IsSorted lo rest
    × ((a : ℕ) → contains v a ≡ true → area_at vs a ≡ some v)
    × ((a : ℕ) → attr_at rest a ≡ (if contains v a then none else attr_at vs a))
    × ((a : ℕ) → area_at rest a ≡ (if contains v a then none else area_at vs a))

abbrev cons_rest : Vma → Option (Vma × List Vma) → Option (Vma × List Vma)
cons_rest v none = none
cons_rest v (some (w, ws)) = some (w, v ∷ ws)

Removed-cons :
    (lo : ℕ) (v : Vma) (vs : List Vma) (start : ℕ) (r : Option (Vma × List Vma))
    → IsSorted lo (v ∷ vs)
    → v.start ≢ start
    → Removed v.end vs start r
    → Removed lo (v ∷ vs) start (cons_rest v r)
unfolding area_at attr_at contains
Removed-cons lo v vs start none s n h = λ a w e. ground (arith, h a w)
Removed-cons lo v vs start (some (w, ws)) s n (e, p, t, found, same, whole) = (
  e,
  p,
  (s.0, s.1, t),
  (λ a c. ground (arith, found a, area_at-below v.end vs a s.2)),
  (λ a. ground (arith, same a, found a, area_at-below v.end vs a s.2)),
  (λ a. ground (arith, whole a, found a, area_at-below v.end vs a s.2)),
)

take_start-Removed :
    (lo : ℕ) (vs : List Vma) (start : ℕ)
    → IsSorted lo vs
    → Removed lo vs start (take_start vs start)
unfolding take_start area_at attr_at contains
take_start-Removed lo [] start s = λ a v h. cc
take_start-Removed lo (v ∷ vs) start s = elim (Bool-cases (v.start == start)) [
  | inl c ↦ rw c (
    ground arith,
    s.1,
    IsSorted-le lo v.end vs (omega (arith, s.0, s.1)) s.2,
    (λ a d. ground arith),
    (λ a. ground (arith, attr_at-below v.end vs a s.2)),
    (λ a. ground (arith, area_at-below v.end vs a s.2)),
  )
  | inr c ↦ rw c (
      Removed-cons lo v vs start (take_start vs start) s (ground arith)
        (take_start-Removed v.end vs start s.2))
]

-- On areas sorted from lo, remove_vma takes out the area that starts at the address and uncovers
-- exactly its addresses, the rest staying sorted; it finds none exactly if no area starts there.
pub remove_vma-Removed :
    (lo : ℕ) (vs : List Vma) (start : ℕ)
    → IsSorted lo vs
    → Removed lo vs start (remove_vma vs start)
remove_vma-Removed lo vs start s =
    rw (remove_vma-eq-take_start lo vs start s) (take_start-Removed lo vs start s)
