-- ===== src/Vma/Area.antt =====
-- kernel/src/vma.rs: the choice of free areas, and the operations that change the list alone.
use ferrum_os.Prelude.{
  ℕ, zero, suc, ◌-◌, Bool, true, false, Option, none, some, List, [], ◌∷◌, Result, ok, err, Fault,
  no_free_area, ltb, leb, ◌==◌, if◌then◌else◌, ◌&&◌, max, get_elem?, drop, page_up, add64, ◌>>=◌,
}
use ferrum_os.Vma.{VmaFlags, VmaKind, Vma, heap, kind_eq, lower_bound, add_vma, remove_vma}

abbrev pub mmap_zone_start : ℕ
mmap_zone_start = 0x0000_6000_0000_0000

abbrev pub mmap_zone_end : ℕ
mmap_zone_end = 0x0000_7000_0000_0000

-- the test after the loop of `find_free_area`; `-` saturates as `saturating_sub` does
abbrev pub zone_tail : ℕ → ℕ → Option ℕ
zone_tail size cursor = if leb size (mmap_zone_end - cursor) then some cursor else none

unfoldable pub find_gap : ℕ → ℕ → List Vma → Option ℕ
find_gap size cursor [] = zone_tail size cursor
find_gap size cursor (v ∷ vs) =
    let passed = find_gap size cursor vs in
    let moved = find_gap size (max cursor v.end) vs in
    if leb mmap_zone_end v.start
    then zone_tail size cursor
    else if leb v.end mmap_zone_start
    then passed
    else if leb size (v.start - cursor)
    then some cursor
    else moved

unfoldable pub find_free_area : List Vma → ℕ → Option ℕ
unfolding find_gap
find_free_area vmas size = find_gap size mmap_zone_start vmas

abbrev pub new_vma : ℕ → ℕ → VmaFlags → VmaKind → Vma
new_vma start end flags kind = record { start = start; end = end; flags = flags; kind = kind }

abbrev pub mmap_start : List Vma → ℕ → ℕ → Option ℕ
mmap_start vmas addr size =
    if addr == 0 then find_free_area vmas (page_up size) else some (page_up addr)

-- The mapped address and the new list; an error leaves the list alone.
abbrev pub mmap_at : List Vma → ℕ → VmaFlags → VmaKind → Option ℕ → Result (ℕ × List Vma)
mmap_at vmas size flags kind none = err no_free_area
mmap_at vmas size flags kind (some start) =
    add_vma vmas (new_vma start (page_up (add64 start size)) flags kind) >>= λ t. ok (start, t)

unfoldable pub mmap : List Vma → ℕ → ℕ → VmaFlags → VmaKind → Result (ℕ × List Vma)
unfolding find_free_area add_vma
mmap vmas addr size flags kind = mmap_at vmas size flags kind (mmap_start vmas addr size)

-- The areas that `punch_hole` collects: from the lower bound, or the area before it if that reaches
-- into the hole, while they start below its end.
abbrev pub first_overlap : List Vma → ℕ → ℕ → ℕ
first_overlap vmas hole_start zero = zero
first_overlap vmas hole_start (suc i) = elim (get_elem? vmas i) [
  | none ↦ suc i
  | some prev ↦ if ltb hole_start prev.end then i else suc i
]

unfoldable pub take_below : ℕ → List Vma → List Vma
take_below hole_end [] = []
take_below hole_end (v ∷ vs) = if ltb v.start hole_end then v ∷ take_below hole_end vs else []

unfoldable pub overlapping : List Vma → ℕ → ℕ → List Vma
unfolding take_below lower_bound
overlapping vmas hole_start hole_end =
    take_below hole_end (drop (first_overlap vmas hole_start (lower_bound vmas hole_start)) vmas)

-- `self.remove_vma(start);`, whose result is dropped
unfoldable pub without : List Vma → ℕ → List Vma
unfolding remove_vma
without vmas start = elim (remove_vma vmas start) [ none ↦ vmas | some (_, rest) ↦ rest ]

-- One `add_vma` under an `if`: whether it failed, and the list.
abbrev pub add_if : Bool → List Vma → Vma → Option Fault × List Vma
add_if false vmas v = (none, vmas)
add_if true vmas v = elim (add_vma vmas v) [ ok t ↦ (none, t) | err e ↦ (some e, vmas) ]

-- What `punch_hole` does to the list for one overlapped area.
unfoldable pub punch_one : List Vma → ℕ → ℕ → Vma → Option Fault × List Vma
unfolding without add_vma
punch_one vmas hole_start hole_end v =
    let left =
      add_if (ltb v.start hole_start) (without vmas v.start)
        (new_vma v.start hole_start v.flags v.kind) in
    elim left.0 [
      | some e ↦ left
      | none ↦ add_if (ltb hole_end v.end) left.1 (new_vma hole_end v.end v.flags v.kind)
    ]

-- The heap area with the largest end: its start and end, from a running best.
unfoldable pub best_heap : Option ℕ → ℕ → List Vma → Option ℕ
best_heap best best_end [] = best
best_heap best best_end (v ∷ vs) =
    let better = best_heap (some v.start) v.end vs in
    let same = best_heap best best_end vs in
    if kind_eq v.kind heap && ltb best_end v.end then better else same

-- The two arms of `extend_heap`: the outcome and the list after it. The old heap area is gone also
-- where the new one does not fit. `none` is the panic of `remove_vma(start).unwrap()`.
abbrev pub replace_heap : ℕ → ℕ → Option (Vma × List Vma) → Option (Option Fault × List Vma)
replace_heap start new_end none = none
replace_heap start new_end (some (existing, rest)) =
    some (add_if true rest (new_vma start new_end existing.flags existing.kind))

abbrev pub extend_at : List Vma → ℕ → ℕ → Option ℕ → Option (Option Fault × List Vma)
extend_at vmas brk_start new_end none = some (
    add_if true vmas
      (new_vma brk_start new_end (record { read = true; write = true; exec = false }) heap))
extend_at vmas brk_start new_end (some start) = replace_heap start new_end (remove_vma vmas start)

unfoldable pub extend_heap : List Vma → ℕ → ℕ → Option (Option Fault × List Vma)
unfolding best_heap remove_vma add_vma
extend_heap vmas brk_start new_end = extend_at vmas brk_start new_end (best_heap none 0 vmas)
