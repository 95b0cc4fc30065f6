-- ===== src/Vma/Add.antt =====
-- `add_vma` refines a plain extension of the covered addresses.
use ferrum_os.Prelude.{
  ℕ, suc, ◌≤◌, ◌<◌, ◌≡◌, ◌≢◌, refl, true, false, none, some, List, [], ◌∷◌, arith, Result, ok, err,
  vma_overlap, is_some, if◌then◌else◌, ◌==◌, ◌&&◌, ltb, Bool-cases, inl, inr,
}
use ferrum_os.Vma.{
  Vma, contains, mergeable_with, lower_bound, partition_point, add_vma, add_vma_at, insert_merged,
  merge_next, next_overlaps,
}
use ferrum_os.Vma.Cover.{attr_at, IsSorted, attr_at-below, area_at, area_at-below}

mergeable_with-flags :
    (v w : Vma) → mergeable_with v w ≡ true → (v.flags ≡ w.flags) × (v.kind ≡ w.kind)
unfolding mergeable_with
mergeable_with-flags v w h = ground arith

-- What `add_vma` owes its caller.
abbrev pub Added : ℕ → List Vma → Vma → Result (List Vma) → Type 0
Added lo vs x (ok vs') =
    IsSorted lo vs'
    × ((a : ℕ) → attr_at vs' a ≡ (if contains x a then some (x.flags, x.kind) else attr_at vs a))
    × ((a : ℕ) → contains x a ≡ true → attr_at vs a ≡ none)
    × ((a : ℕ) (w : Vma)
        → area_at vs a ≡ some w
        → w.end ≢ x.start
        → w.start ≢ x.end
        → area_at vs' a ≡ some w)
Added lo vs x (err e) =
    (e ≡ vma_overlap) × (a : ℕ) × (contains x a ≡ true) × (is_some (attr_at vs a) ≡ true)

abbrev map_ok : (List Vma → List Vma) → Result (List Vma) → Result (List Vma)
map_ok f (ok vs) = ok (f vs)
map_ok f (err e) = err e

-- Past the first two areas the insertion happens in the tail.
add_vma_at-cons :
    (v : Vma) (vs : List Vma) (k : ℕ) (x : Vma)
    → add_vma_at (v ∷ vs) (suc (suc k)) x ≡ map_ok (λ t. v ∷ t) (add_vma_at vs (suc k) x)
add_vma_at-cons v vs k x = ground arith

Added-cons :
    (lo : ℕ) (v : Vma) (vs : List Vma) (x : Vma) (r : Result (List Vma))
    → lo ≤ v.start
    → v.start < v.end
    → v.end ≤ x.start
    → Added v.end vs x r
    → Added lo (v ∷ vs) x (map_ok (λ t. v ∷ t) r)
unfolding attr_at area_at contains
Added-cons lo v vs x (ok t) h k l (s, same, free, kept) = (
  (h, k, s),
  (λ a. ground (arith, same a)),
  (λ a c. ground (arith, free a c)),
  (λ a w e p q. ground (arith, kept a w)),
)
Added-cons lo v vs x (err e) h k l (same, a, c, i) = (same, a, c, ground arith)

-- The last steps of `add_vma` at the head of a list that starts behind the area.
abbrev place : Vma → List Vma → List Vma
place x vs = insert_merged (merge_next (vs, 0, x))

place-cons :
    (v : Vma) (vs : List Vma) (x : Vma) → insert_merged (merge_next (v ∷ vs, 1, x)) ≡ v ∷ place x vs
place-cons v [] x = refl
place-cons v (w ∷ vs) x = ground arith

place-IsSorted :
    (lo : ℕ) (x : Vma) (vs : List Vma)
    → lo ≤ x.start
    → x.start < x.end
    → IsSorted x.end vs
    → IsSorted lo (place x vs)
place-IsSorted lo x [] h k s = (h, k, tt)
place-IsSorted lo x (v ∷ vs) h k s = elim (Bool-cases (x.end == v.start && mergeable_with x v)) [
  | inl m ↦ rw m (h, omega (arith, s.0, s.1), s.2)
  | inr m ↦ rw m (h, k, s)
]

attr_at-place :
    (x : Vma) (vs : List Vma) (a : ℕ)
    → x.start < x.end
    → IsSorted x.end vs
    → attr_at (place x vs) a ≡ (if contains x a then some (x.flags, x.kind) else attr_at vs a)
unfolding attr_at area_at contains
attr_at-place x [] a k s = refl
attr_at-place x (v ∷ vs) a k s = ground (arith, mergeable_with-flags x v)

area_at-place :
    (x : Vma) (vs : List Vma) (a : ℕ) (w : Vma)
    → x.start < x.end
    → IsSorted x.end vs
    → area_at vs a ≡ some w
    → w.start ≢ x.end
    → area_at (place x vs) a ≡ some w
unfolding area_at contains
area_at-place x [] a w k s e q = cc
area_at-place x (v ∷ vs) a w k s e q = ground (arith, area_at-below v.end vs a s.2)

place-Added :
    (lo : ℕ) (x : Vma) (vs : List Vma)
    → lo ≤ x.start
    → x.start < x.end
    → IsSorted x.end vs
    → Added lo vs x (ok (place x vs))
unfolding contains
place-Added lo x vs h k s = (
  place-IsSorted lo x vs h k s,
  (λ a. attr_at-place x vs a k s),
  (λ a c. attr_at-below x.end vs a s (ground arith)),
  (λ a w e p q. area_at-place x vs a w k s e q),
)

next-clear :
    (lo : ℕ) (vs : List Vma) (x : Vma)
    → IsSorted lo vs
    → next_overlaps vs 0 x ≡ false
    → IsSorted x.end vs
next-clear lo [] x s h = tt
next-clear lo (v ∷ vs) x s h = (ground arith, s.1, s.2)

next-over :
    (vs : List Vma) (x : Vma)
    → x.start < x.end
    → IsSorted x.start vs
    → next_overlaps vs 0 x ≡ true
    → (a : ℕ) × (contains x a ≡ true) × (is_some (attr_at vs a) ≡ true)
unfolding attr_at area_at contains
next-over [] x k s h = cc
next-over (v ∷ vs) x k s h = (v.start, ground arith, ground arith)

add_vma_at-zero :
    (lo : ℕ) (vs : List Vma) (x : Vma)
    → lo ≤ x.start
    → x.start < x.end
    → IsSorted x.start vs
    → Added lo vs x (add_vma_at vs 0 x)
add_vma_at-zero lo vs x h k s = elim (Bool-cases (next_overlaps vs 0 x)) [
  | inl over ↦ (let (a, c, i) = next-over vs x k s over in rw over (refl, a, c, i))
  | inr apart ↦ rw apart (place-Added lo x vs h k (next-clear x.start vs x s apart))
]

-- The area starts in or right behind the first area of the list.
merged-Added :
    (lo : ℕ) (v : Vma) (vs : List Vma) (x : Vma)
    → lo ≤ v.start
    → v.start < v.end
    → x.start < x.end
    → IsSorted x.end vs
    → v.end ≡ x.start
    → mergeable_with v x ≡ true
    → Added lo (v ∷ vs) x (ok (place (record x { start = v.start }) vs))
unfolding attr_at area_at contains
merged-Added lo v vs x h l m s e g =
    let y : Vma = record x { start = v.start } in
    (
      place-IsSorted lo y vs h (omega arith) s,
      (λ a. ground (arith, attr_at-place y vs a, mergeable_with-flags v x)),
      (λ a c. ground (arith, attr_at-below x.end vs a)),
      (λ a w e' p q. ground (arith, area_at-place y vs a w, area_at-below x.end vs a)),
    )

add_vma_at-one :
    (lo : ℕ) (v : Vma) (vs : List Vma) (x : Vma)
    → lo ≤ v.start
    → v.start < x.start
    → v.start < v.end
    → x.start < x.end
    → IsSorted v.end vs
    → IsSorted x.start vs
    → Added lo (v ∷ vs) x (add_vma_at (v ∷ vs) 1 x)
unfolding attr_at area_at contains
add_vma_at-one lo v vs x h k l m s t = elim (Bool-cases (ltb x.start v.end)) [
  | inl over ↦ rw over (refl, x.start, ground arith, ground arith)
  | inr apart ↦ rw apart (elim (Bool-cases (next_overlaps vs 0 x)) [
    | inl over ↦ (let (a, c, i) = next-over vs x m t over in rw over (refl, a, c, ground arith))
    | inr clear ↦ elim (Bool-cases (v.end == x.start && mergeable_with v x)) [
      | inl g ↦
          rw (clear, g)
            (merged-Added lo v vs x h l m (next-clear x.start vs x t clear) (ground arith)
              (ground arith))
      | inr g ↦
          rw (clear, g, place-cons)
            (Added-cons lo v vs x (ok (place x vs)) h l (ground arith)
              (place-Added v.end x vs (ground arith) m (next-clear x.start vs x t clear)))
    ]
  ])
]

-- The insertion past a first area that starts below the new one, by induction on the list.
tail-Added :
    (lo : ℕ) (v : Vma) (vs : List Vma) (x : Vma)
    → v.start < x.start
    → x.start < x.end
    → IsSorted lo (v ∷ vs)
    → Added lo (v ∷ vs) x (add_vma_at (v ∷ vs) (suc (lower_bound vs x.start)) x)
unfolding lower_bound partition_point
tail-Added lo v [] x b k s = add_vma_at-one lo v [] x s.0 b s.1 k tt tt
tail-Added lo v (w ∷ vs) x b k s = elim (Bool-cases (ltb w.start x.start)) [
  | inl c ↦
      rw (c, add_vma_at-cons)
        (Added-cons lo v (w ∷ vs) x _ s.0 s.1 (ground arith)
          (tail-Added v.end w vs x (ground arith) k s.2))
  | inr c ↦ rw c (add_vma_at-one lo v (w ∷ vs) x s.0 b s.1 k s.2 (ground arith))
]

-- On areas sorted from lo, add_vma of a non-empty area from lo on either fails because an address
-- of the new area is covered already, or returns sorted areas in which exactly the addresses of
-- the new area, all free before, have gained its rights and kind, and areas that do not touch it
-- are as they were.
pub add_vma-Added :
    (lo : ℕ) (vs : List Vma) (x : Vma)
    → lo ≤ x.start
    → x.start < x.end
    → IsSorted lo vs
    → Added lo vs x (add_vma vs x)
unfolding add_vma
add_vma-Added lo [] x h k s = add_vma_at-zero lo [] x h k tt
add_vma-Added lo (v ∷ vs) x h k s = elim (Bool-cases (ltb v.start x.start)) [
  | inl b ↦ rw b (tail-Added lo v vs x (ground arith) k s)
  | inr b ↦ rw b (add_vma_at-zero lo (v ∷ vs) x h k (ground arith))
]
