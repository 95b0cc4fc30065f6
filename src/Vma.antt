-- ===== src/Vma.antt =====
-- kernel/src/vma.rs: virtual memory areas and the sorted list of them in an `AddressSpace`.
pub mod Cover
pub mod Add
pub mod Find
pub mod Area
pub mod Gaps
pub mod Mmap
pub mod Punch
pub mod Cut
pub mod Fixed
pub mod Heap
pub mod Space
use ferrum_os.Prelude.{
  ℕ, zero, suc, Bool, true, false, ◌&&◌, Option, none, some, List, [], ◌∷◌, Result, ok, err,
  vma_overlap, ltb, leb, ◌==◌, if◌then◌else◌, get_elem?, insert_at, remove_at,
}

pub record VmaFlags : Type 0 where
  pub read : Bool
  pub write : Bool
  pub exec : Bool

pub data VmaKind : Type 0 where
  anonymous stack heap : VmaKind

pub record Vma : Type 0 where
  pub start : ℕ
  pub end : ℕ
  pub flags : VmaFlags
  pub kind : VmaKind

abbrev pub bool_eq : Bool → Bool → Bool
bool_eq true b = b
bool_eq false true = false
bool_eq false false = true

abbrev pub flags_eq : VmaFlags → VmaFlags → Bool
flags_eq f g = bool_eq f.read g.read && bool_eq f.write g.write && bool_eq f.exec g.exec

abbrev pub kind_eq : VmaKind → VmaKind → Bool
kind_eq anonymous anonymous = true
kind_eq stack stack = true
kind_eq heap heap = true
kind_eq _ _ = false

unfoldable pub contains : Vma → ℕ → Bool
contains v addr = leb v.start addr && ltb addr v.end

unfoldable pub mergeable_with : Vma → Vma → Bool
mergeable_with v other = flags_eq v.flags other.flags && kind_eq v.kind other.kind

-- `slice::partition_point` on a list that `p` partitions: how many elements lead up to the first
-- that fails `p`
unfoldable pub partition_point : (Vma → Bool) → List Vma → ℕ
partition_point p [] = 0
partition_point p (v ∷ vs) = if p v then suc (partition_point p vs) else 0

unfoldable pub lower_bound : List Vma → ℕ → ℕ
lower_bound vmas start = partition_point (λ v. ltb v.start start) vmas

-- The two overlap tests of `add_vma`, on the neighbours of the insertion index.
abbrev pub prev_overlaps : List Vma → ℕ → Vma → Bool
prev_overlaps vmas zero vma = false
prev_overlaps vmas (suc i) vma = elim (get_elem? vmas i) [
  | none ↦ false
  | some prev ↦ ltb vma.start prev.end
]

abbrev pub next_overlaps : List Vma → ℕ → Vma → Bool
next_overlaps vmas idx vma = elim (get_elem? vmas idx) [
  | none ↦ false
  | some next ↦ ltb next.start vma.end
]

-- The two merge steps of `add_vma`: the list, the insertion index and the area to insert.
abbrev pub merge_prev : List Vma → ℕ → Vma → List Vma × ℕ × Vma
merge_prev vmas zero merged = (vmas, 0, merged)
merge_prev vmas (suc i) merged = elim (get_elem? vmas i) [
  | none ↦ (vmas, suc i, merged)
  | some prev ↦
      if prev.end == merged.start && mergeable_with prev merged
      then (remove_at vmas i, i, record merged { start = prev.start })
      else (vmas, suc i, merged)
]

abbrev pub merge_next : List Vma × ℕ × Vma → List Vma × ℕ × Vma
merge_next (vmas, i, merged) = elim (get_elem? vmas i) [
  | none ↦ (vmas, i, merged)
  | some next ↦
      if merged.end == next.start && mergeable_with merged next
      then (remove_at vmas i, i, record merged { end = next.end })
      else (vmas, i, merged)
]

abbrev pub insert_merged : List Vma × ℕ × Vma → List Vma
insert_merged (vmas, i, merged) = insert_at vmas i merged

abbrev pub add_vma_at : List Vma → ℕ → Vma → Result (List Vma)
add_vma_at vmas idx vma =
    if prev_overlaps vmas idx vma
    then err vma_overlap
    else if next_overlaps vmas idx vma
    then err vma_overlap
    else ok (insert_merged (merge_next (merge_prev vmas idx vma)))

unfoldable pub add_vma : List Vma → Vma → Result (List Vma)
unfolding lower_bound partition_point mergeable_with
add_vma vmas vma = add_vma_at vmas (lower_bound vmas vma.start) vma

-- `find_vma`: the last area that starts at or below the address is the candidate.
abbrev pub find_at : List Vma → ℕ → ℕ → Option Vma
find_at vmas zero addr = none
find_at vmas (suc i) addr = elim (get_elem? vmas i) [
  | none ↦ none
  | some candidate ↦ if contains candidate addr then some candidate else none
]

unfoldable pub find_vma : List Vma → ℕ → Option Vma
unfolding partition_point contains
find_vma vmas addr = find_at vmas (partition_point (λ v. leb v.start addr) vmas) addr

-- `remove_vma`: the removed area, and the list without it; `none` leaves the list alone.
abbrev pub remove_vma_at : List Vma → ℕ → ℕ → Option (Vma × List Vma)
remove_vma_at vmas idx start = elim (get_elem? vmas idx) [
  | none ↦ none
  | some v ↦ if v.start == start then some (v, remove_at vmas idx) else none
]

unfoldable pub remove_vma : List Vma → ℕ → Option (Vma × List Vma)
unfolding lower_bound partition_point
remove_vma vmas start = remove_vma_at vmas (lower_bound vmas start) start
