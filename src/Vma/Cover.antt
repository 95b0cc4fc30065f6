-- ===== src/Vma/Cover.antt =====
-- The abstract view of an address space: which address is covered, with which rights; the invariant
-- that vma.rs states for `AddressSpace.vmas`; and lookups through it.
use ferrum_os.Prelude.{
  ℕ, ◌≤◌, ◌<◌, ◌≡◌, refl, true, Option, none, some, List, [], ◌∷◌, arith, if◌then◌else◌,
}
use ferrum_os.Vma.{Vma, VmaFlags, VmaKind, contains}

-- the rights and the kind of the area over an address, by a walk through the whole list
unfoldable pub attr_at : List Vma → ℕ → Option (VmaFlags × VmaKind)
unfolding contains
attr_at [] addr = none
attr_at (v ∷ vs) addr = if contains v addr then some (v.flags, v.kind) else attr_at vs addr

-- Ordered, disjoint, non-empty areas from `lo` on.
abbrev pub IsSorted : ℕ → List Vma → Type 0
IsSorted lo [] = Unit {0}
IsSorted lo (v ∷ vs) = (lo ≤ v.start) × (v.start < v.end) × IsSorted v.end vs

pub attr_at-below : (lo : ℕ) (vs : List Vma) (a : ℕ) → IsSorted lo vs → a < lo → attr_at vs a ≡ none
unfolding attr_at
attr_at-below lo [] a s h = refl
attr_at-below lo (v ∷ vs) a s h = ground (arith, attr_at-below v.end vs a s.2)

pub IsSorted-le : (lo hi : ℕ) (vs : List Vma) → lo ≤ hi → IsSorted hi vs → IsSorted lo vs
IsSorted-le lo hi [] h s = tt
IsSorted-le lo hi (v ∷ vs) h s = (omega arith, s.1, s.2)

-- the area over an address
unfoldable pub area_at : List Vma → ℕ → Option Vma
unfolding contains
area_at [] addr = none
area_at (v ∷ vs) addr = if contains v addr then some v else area_at vs addr

pub area_at-below : (lo : ℕ) (vs : List Vma) (a : ℕ) → IsSorted lo vs → a < lo → area_at vs a ≡ none
unfolding area_at
area_at-below lo [] a s h = refl
area_at-below lo (v ∷ vs) a s h = ground (arith, area_at-below v.end vs a s.2)

pub attr_at-area_at :
    (vs : List Vma) (a : ℕ) (v : Vma)
    → area_at vs a ≡ some v
    → (attr_at vs a ≡ some (v.flags, v.kind)) × (contains v a ≡ true)
unfolding attr_at area_at
attr_at-area_at [] a v h = cc
attr_at-area_at (w ∷ vs) a v h = ground (arith, attr_at-area_at vs a v)

pub area_at-attr_at : (vs : List Vma) (a : ℕ) → area_at vs a ≡ none → attr_at vs a ≡ none
unfolding attr_at area_at
area_at-attr_at [] a h = refl
area_at-attr_at (w ∷ vs) a h = ground (arith, area_at-attr_at vs a)
