-- ===== src/Vma/Gaps.antt =====
-- `find_free_area` of kernel/src/vma.rs finds the lowest gap of the anonymous zone that is large
-- enough, and fails only where there is none.
use ferrum_os.Prelude.{
  ℕ, ◌+◌, ◌-◌, ◌%◌, ◌≤◌, ◌<◌, ◌≡◌, refl, inl, inr, Option, none, some, List, [], ◌∷◌, arith, leb,
  max, Bool-cases, page_size,
}
use ferrum_os.Vma.{Vma, contains}
use ferrum_os.Vma.Area.{mmap_zone_start, mmap_zone_end, find_gap, find_free_area}
use ferrum_os.Vma.Cover.{attr_at, IsSorted, attr_at-below}

-- nothing is mapped in `[c, c + size)`
abbrev pub IsFree : List Vma → ℕ → ℕ → Type 0
IsFree vs c size = (a : ℕ) → c ≤ a → a < c + size → attr_at vs a ≡ none

-- every area ends at a page boundary
abbrev pub IsAligned : List Vma → Type 0
IsAligned [] = Unit {0}
IsAligned (v ∷ vs) = (v.end % page_size ≡ 0) × IsAligned vs

find_gap_bounds :
    (size cursor : ℕ) (vs : List Vma) (c : ℕ)
    → 0 < size
    → mmap_zone_start ≤ cursor
    → find_gap size cursor vs ≡ some c
    → (cursor ≤ c) × (c + size ≤ mmap_zone_end)
unfolding find_gap
find_gap_bounds size cursor [] c p z h = ground arith
find_gap_bounds size cursor (v ∷ vs) c p z h =
    ground
      (arith, find_gap_bounds size cursor vs c p z, find_gap_bounds size (max cursor v.end) vs c p)

find_gap-IsFree :
    (size cursor lo : ℕ) (vs : List Vma) (c a : ℕ)
    → 0 < size
    → mmap_zone_start ≤ cursor
    → IsSorted lo vs
    → find_gap size cursor vs ≡ some c
    → c ≤ a
    → a < c + size
    → attr_at vs a ≡ none
unfolding find_gap attr_at contains
find_gap-IsFree size cursor lo [] c a p z s h k l = refl
find_gap-IsFree size cursor lo (v ∷ vs) c a p z s h k l = ground (
  arith,
  attr_at-below v.end vs a s.2,
  find_gap_bounds size cursor vs c p z,
  find_gap_bounds size (max cursor v.end) vs c p,
  find_gap-IsFree size cursor v.end vs c a p z s.2,
  find_gap-IsFree size (max cursor v.end) v.end vs c a p,
)

pub find_gap_aligned :
    (size cursor : ℕ) (vs : List Vma) (c : ℕ)
    → cursor % page_size ≡ 0
    → IsAligned vs
    → find_gap size cursor vs ≡ some c
    → c % page_size ≡ 0
unfolding find_gap
find_gap_aligned size cursor [] c z s h = ground arith
find_gap_aligned size cursor (v ∷ vs) c z s h = ground (
  arith,
  find_gap_aligned size cursor vs c z s.1,
  find_gap_aligned size (max cursor v.end) vs c (omega (arith, s.0)) s.1,
)

-- An area that neither leaves a gap of the size nor lies past a free range ends before the range.
end_before :
    (size cursor c : ℕ) (v : Vma) (vs : List Vma)
    → 0 < size
    → v.start < v.end
    → cursor ≤ c
    → v.start - cursor < size
    → IsFree (v ∷ vs) c size
    → max cursor v.end ≤ c
unfolding attr_at contains
end_before size cursor c v vs p n k g f = ground (arith, f (max c v.start))

IsFree-tail : (v : Vma) (vs : List Vma) (c size : ℕ) → IsFree (v ∷ vs) c size → IsFree vs c size
unfolding attr_at contains
IsFree-tail v vs c size f a k l = ground (arith, f a)

-- A free range behind the cursor makes the scan succeed, at or below that range.
find_gap_first :
    (size cursor lo : ℕ) (vs : List Vma) (c : ℕ)
    → 0 < size
    → mmap_zone_start ≤ cursor
    → IsSorted lo vs
    → cursor ≤ c
    → c + size ≤ mmap_zone_end
    → IsFree vs c size
    → (d : ℕ) × (find_gap size cursor vs ≡ some d) × (d ≤ c)
unfolding find_gap
find_gap_first size cursor lo [] c p z s k l f = (cursor, ground arith, k)
find_gap_first size cursor lo (v ∷ vs) c p z s k l f =
    elim (Bool-cases (leb mmap_zone_end v.start)) [
      | inl b ↦ (cursor, ground arith, k)
      | inr b ↦ elim (Bool-cases (leb v.end mmap_zone_start)) [
        | inl e ↦
            let (d, found, low) =
              find_gap_first size cursor v.end vs c p z s.2 k l (IsFree-tail v vs c size f) in
            (d, ground arith, low)
        | inr e ↦ elim (Bool-cases (leb size (v.start - cursor))) [
          | inl g ↦ (cursor, ground arith, k)
          | inr g ↦
              let ahead = end_before size cursor c v vs p s.1 k (ground arith) f in
              let (d, found, low) =
                find_gap_first size (max cursor v.end) v.end vs c p (omega arith) s.2 ahead l
                  (IsFree-tail v vs c size f) in
              (d, ground arith, low)
        ]
      ]
    ]

-- The result of `find_free_area`: `some c` is a free range of the zone and no lower range is free;
-- `none` means that no range is free.
abbrev pub IsLowestGap : List Vma → ℕ → Option ℕ → Type 0
IsLowestGap vs size (some c) =
    (mmap_zone_start ≤ c)
    × (c + size ≤ mmap_zone_end)
    × IsFree vs c size
    × ((d : ℕ) → mmap_zone_start ≤ d → d + size ≤ mmap_zone_end → IsFree vs d size → c ≤ d)
IsLowestGap vs size none =
    (d : ℕ) → mmap_zone_start ≤ d → d + size ≤ mmap_zone_end → ¬ IsFree vs d size

-- For a positive size and sorted areas, find_free_area returns the lowest free range of the mmap
-- zone, or none exactly if no range of that size is free in the zone.
pub find_free_area-IsLowestGap :
    (vs : List Vma) (size : ℕ)
    → 0 < size
    → IsSorted 0 vs
    → IsLowestGap vs size (find_free_area vs size)
unfolding find_free_area
find_free_area-IsLowestGap vs size p s = go (find_gap size mmap_zone_start vs) refl
  where
    go : (r : Option ℕ) → find_gap size mmap_zone_start vs ≡ r → IsLowestGap vs size r
    go none e = λ d k l f.
        let (c, found, low) = find_gap_first size mmap_zone_start 0 vs d p (omega arith) s k l f in
        cc
    go (some c) e =
        let b = find_gap_bounds size mmap_zone_start vs c p (omega arith) e in
        (
          b.0,
          b.1,
          (λ a k l. find_gap-IsFree size mmap_zone_start 0 vs c a p (omega arith) s e k l),
          (λ d k l f.
              let (c', found, low) =
                find_gap_first size mmap_zone_start 0 vs d p (omega arith) s k l f in
              ground arith),
        )
