-- ===== src/Vma/Heap.antt =====
-- `extend_heap` of kernel/src/vma.rs, behind the `brk` system call.
use ferrum_os.Prelude.{
  ℕ, ◌<◌, ◌≤◌, ◌≡◌, refl, ap, sym, lt→ltb, ◌∙◌, inl, inr, true, false, ◌&&◌, Option, none, some,
  List, [], ◌∷◌, arith, Result, ok, err, Fault, vma_overlap, is_some, if◌then◌else◌, ltb,
  Bool-cases,
}
use mathlib.Core.Path.{subst}
use ferrum_os.Vma.{Vma, heap, kind_eq, contains, add_vma, remove_vma}
use ferrum_os.Vma.Area.{new_vma, best_heap, extend_heap, replace_heap}
use ferrum_os.Vma.Cover.{area_at, area_at-below, attr_at, attr_at-area_at, IsSorted}
use ferrum_os.Vma.Add.{Added, add_vma-Added}
use ferrum_os.Vma.Find.{Removed, remove_vma-Removed}
use ferrum_os.Vma.Cut.{in_hole}

-- `h` is a heap area of the list that starts at `start`.
abbrev pub IsHeapAt : List Vma → ℕ → Vma → Type 0
IsHeapAt vs start h = (area_at vs start ≡ some h) × (h.start ≡ start) × (h.kind ≡ heap)

-- The heap area ends at `new_end` now, with its rights and kind.
abbrev pub Grown : List Vma → Vma → ℕ → List Vma → Type 0
Grown vs h new_end t =
    IsSorted 0 t
    × ((a : ℕ)
        → attr_at t a ≡ (
            if in_hole h.start new_end a
            then some (h.flags, h.kind)
            else if contains h a
            then none
            else attr_at vs a))

-- The heap area is gone and nothing took its place, since another area lies below `new_end`.
abbrev pub Lost : List Vma → Vma → ℕ → List Vma → Type 0
Lost vs h new_end t =
    ((a : ℕ) → attr_at t a ≡ (if contains h a then none else attr_at vs a))
    × (a : ℕ) × (in_hole h.start new_end a ≡ true)
    × (contains h a ≡ false)
    × (is_some (attr_at vs a) ≡ true)

abbrev pub Outcome : List Vma → Vma → ℕ → Option (Option Fault × List Vma) → Type 0
Outcome vs h new_end none = ⊥
Outcome vs h new_end (some (none, t)) = Grown vs h new_end t
Outcome vs h new_end (some (some e, t)) = (e ≡ vma_overlap) × Lost vs h new_end t

regrow :
    (vs rest : List Vma) (h : Vma) (start new_end : ℕ)
    → start < new_end
    → h.start ≡ start
    → ((a : ℕ) → attr_at rest a ≡ (if contains h a then none else attr_at vs a))
    → (r : Result (List Vma)) → Added 0 rest (new_vma start new_end h.flags h.kind) r
    → Outcome vs h new_end (some (elim r [ ok t ↦ (none, t) | err e ↦ (some e, rest) ]))
unfolding contains
regrow vs rest h start new_end p at out (ok t) (sorted, attrs, _, _) =
    (sorted, λ a. ground (arith, attrs a, out a))
regrow vs rest h start new_end p at out (err e) (same, a, c, i) =
    (same, (out, a, ground arith, ground (arith, out a), ground (arith, out a)))

replace_heap_lem :
    (vs : List Vma) (start : ℕ) (h : Vma) (new_end : ℕ) (r : Option (Vma × List Vma))
    → IsSorted 0 vs
    → IsHeapAt vs start h
    → start < new_end
    → Removed 0 vs start r
    → Outcome vs h new_end (replace_heap start new_end r)
unfolding contains
replace_heap_lem vs start h new_end none s (found, at, k) p out = out start h found at
replace_heap_lem vs start h new_end (some (w, rest)) s (found, at, k) p
      (at', pos, sorted, whole, attrs, _) =
    let same : some w ≡ some h = sym (whole start (ground arith)) ∙ found in
    let same' : w ≡ h = cc in
    let x = new_vma start new_end w.flags w.kind in
    let r = add_vma-Added 0 rest x (omega arith) p sorted in
    subst (λ u. Outcome vs u new_end (replace_heap start new_end (some (w, rest)))) same'
      (regrow vs rest w start new_end p at' attrs (add_vma rest x) r)

-- No heap area of the list ends behind `e`.
abbrev pub HeapsEndBy : ℕ → List Vma → Type 0
HeapsEndBy e [] = Unit {0}
HeapsEndBy e (v ∷ vs) = (v.kind ≡ heap → v.end ≤ e) × HeapsEndBy e vs

-- `h` is the last heap area of the list.
abbrev pub IsLastHeap : List Vma → Vma → Type 0
IsLastHeap vs h = IsHeapAt vs h.start h × HeapsEndBy h.end vs

best_heap-kept :
    (vs : List Vma) (best : Option ℕ) (best_end : ℕ)
    → HeapsEndBy best_end vs
    → best_heap best best_end vs ≡ best
unfolding best_heap
best_heap-kept [] best best_end h = refl
best_heap-kept (v ∷ vs) best best_end h =
    elim (Bool-cases (kind_eq v.kind heap && ltb best_end v.end)) [
      | inl c ↦ absurd (ground (arith, h.0))
      | inr c ↦ rw c (best_heap-kept vs best best_end h.1)
    ]

starts_behind :
    (lo : ℕ) (vs : List Vma) (h : Vma) → IsSorted lo vs → area_at vs h.start ≡ some h → lo < h.end
unfolding contains
starts_behind lo vs h s found =
    let (attr, inside) = attr_at-area_at vs h.start h found in
    elim (Bool-cases (ltb h.start lo)) [
      | inl c ↦ absurd (ground (arith, area_at-below lo vs h.start s (ground arith)))
      | inr c ↦ ground arith
    ]

-- The loop chooses the last heap area.
best_heap-last :
    (lo : ℕ) (vs : List Vma) (best : Option ℕ) (best_end : ℕ) (h : Vma)
    → IsSorted lo vs
    → IsLastHeap vs h
    → best_end < h.end
    → best_heap best best_end vs ≡ some h.start
unfolding best_heap area_at contains
best_heap-last lo [] best best_end h s l lt = absurd (ground (arith, l.0.0))
best_heap-last lo (v ∷ vs) best best_end h s l lt = elim (Bool-cases (contains v h.start)) [
  | inl c ↦
      let same : some v ≡ some h = ground (arith, l.0.0) in
      let same' : v ≡ h = cc in
      let is_heap : kind_eq h.kind heap ≡ true = rw l.0.2 refl in
      let is_heap' : kind_eq v.kind heap ≡ true = ap (λ x. kind_eq x.kind heap) same' ∙ is_heap in
      let later : ltb best_end v.end ≡ true =
        ap (λ x. ltb best_end x.end) same' ∙ lt→ltb best_end h.end lt in
      let none_behind = subst (λ x. HeapsEndBy x.end vs) (sym same') l.1.1 in
      rw is_heap' (
        rw later
          (best_heap-kept vs (some v.start) v.end none_behind ∙ ap (λ x. some x.start) same'))
  | inr c ↦
      let found : area_at vs h.start ≡ some h = ground (arith, l.0.0) in
      let behind : v.end < h.end = starts_behind v.end vs h s.2 found in
      let l' : IsLastHeap vs h = ((found, refl, l.0.2), l.1.1) in
      elim (Bool-cases (kind_eq v.kind heap && ltb best_end v.end)) [
        | inl b ↦ rw b (best_heap-last v.end vs (some v.start) v.end h s.2 l' behind)
        | inr b ↦ rw b (best_heap-last v.end vs best best_end h s.2 l' lt)
      ]
]

-- If the areas are sorted, h is the last heap area among them and new_end lies behind its start,
-- extend_heap does not panic: it moves the end of that area to new_end, or it fails with an
-- overlap, because another area lies below new_end, and then the heap area is no longer in the
-- list.
pub extend_heap-Outcome :
    (vs : List Vma) (brk_start new_end : ℕ) (h : Vma)
    → IsSorted 0 vs
    → IsLastHeap vs h
    → h.start < new_end
    → Outcome vs h new_end (extend_heap vs brk_start new_end)
unfolding extend_heap
extend_heap-Outcome vs brk_start new_end h s l p =
    rw (best_heap-last 0 vs none 0 h s l (starts_behind 0 vs h s l.0.0)) (
      replace_heap_lem vs h.start h new_end (remove_vma vs h.start) s l.0 p
        (remove_vma-Removed 0 vs h.start s))
