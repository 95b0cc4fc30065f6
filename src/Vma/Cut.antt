-- ===== src/Vma/Cut.antt =====
-- `punch_hole` and `mmap_fixed` of kernel/src/vma.rs: what they do to the covered addresses.
use ferrum_os.Prelude.{
  ℕ, ◌≤◌, ◌<◌, ◌≡◌, ◌≢◌, refl, sym, ◌∙◌, ◌⊎◌, Bool, true, false, ◌&&◌, Option, none, some, List,
  arith, Result, ok, err, Fault, if◌then◌else◌, ltb, leb, inl, inr,
}
use ferrum_os.Vma.{Vma, contains, add_vma, remove_vma}
use ferrum_os.Vma.Area.{new_vma, without, add_if, punch_one}
use ferrum_os.Vma.Cover.{area_at, attr_at, IsSorted, attr_at-area_at}
use ferrum_os.Vma.Add.{Added, add_vma-Added}
use ferrum_os.Vma.Find.{Removed, remove_vma-Removed}

abbrev pub in_hole : ℕ → ℕ → ℕ → Bool
in_hole hole end a = leb hole a && ltb a end

-- `rest` is `vs` without the area `v`.
pub record IsWithout (vs : List Vma) (v : Vma) (rest : List Vma) : Type 0 where
  pub sorted : IsSorted 0 rest
  pub attrs : (a : ℕ) → attr_at rest a ≡ (if contains v a then none else attr_at vs a)
  pub areas : (a : ℕ) → area_at rest a ≡ (if contains v a then none else area_at vs a)
  pub found : (a : ℕ) → contains v a ≡ true → attr_at vs a ≡ some (v.flags, v.kind)

pub without_lem :
    (vs : List Vma) (v : Vma)
    → IsSorted 0 vs
    → area_at vs v.start ≡ some v
    → IsWithout vs v (without vs v.start)
unfolding without contains
without_lem vs v s e = go (remove_vma vs v.start) refl (remove_vma-Removed 0 vs v.start s)
  where
    go :
        (r : Option (Vma × List Vma))
        → remove_vma vs v.start ≡ r
        → Removed 0 vs v.start r
        → IsWithout vs v (elim r [ none ↦ vs | some (_, rest) ↦ rest ])
    go none eq out = absurd (out v.start v e refl)
    go (some (w, rest)) eq (at, pos, sorted, found, attrs, areas) =
        let same : some v ≡ some w = sym e ∙ found v.start (ground arith) in
        let same' : v ≡ w = cc in
        rw same' (record {
          sorted = sorted;
          attrs = attrs;
          areas = areas;
          found = λ a c. (attr_at-area_at vs a w (found a c)).0;
        })

-- What one guarded `add_vma` gives when the new area overlaps nothing.
pub record IsAddIf (b : Bool) (vs : List Vma) (x : Vma) (r : Option Fault × List Vma) : Type 0 where
  pub done : r.0 ≡ none
  pub sorted : IsSorted 0 r.1
  pub attrs :
      (a : ℕ) → attr_at r.1 a ≡ (if b && contains x a then some (x.flags, x.kind) else attr_at vs a)
  pub areas :
      (a : ℕ) (w : Vma)
      → area_at vs a ≡ some w
      → (b ≡ false) ⊎ ((w.end ≢ x.start) × (w.start ≢ x.end))
      → area_at r.1 a ≡ some w

pub add_if_lem :
    (b : Bool) (vs : List Vma) (x : Vma)
    → IsSorted 0 vs
    → (b ≡ true → x.start < x.end)
    → ((a : ℕ) → b ≡ true → contains x a ≡ true → attr_at vs a ≡ none)
    → IsAddIf b vs x (add_if b vs x)
add_if_lem false vs x s p free = record {
  done = refl;
  sorted = s;
  attrs = λ a. refl;
  areas = λ a w e o. e;
}
add_if_lem true vs x s p free = go (add_vma vs x) (add_vma-Added 0 vs x (omega arith) (p refl) s)
  where
    go :
        (r : Result (List Vma))
        → Added 0 vs x r
        → IsAddIf true vs x (elim r [ ok t ↦ (none, t) | err e ↦ (some e, vs) ])
    go (ok t) (sorted, attrs, _, areas) = record {
      done = refl;
      sorted = sorted;
      attrs = attrs;
      areas = λ a w e o. ground (arith, areas a w e);
    }
    go (err f) (_, a, c, i) = absurd (ground (arith, free a refl c))

-- One round of `punch_hole`: the area is cut to what lies outside the hole.
pub record IsPunched (vs : List Vma) (hole end : ℕ) (v : Vma) (r : Option Fault × List Vma)
    : Type 0 where
  pub done : r.0 ≡ none
  pub sorted : IsSorted 0 r.1
  pub attrs :
      (a : ℕ) → attr_at r.1 a ≡ (if in_hole hole end a && contains v a then none else attr_at vs a)
  pub areas :
      (a : ℕ) (w : Vma)
      → area_at vs a ≡ some w
      → v.end ≤ w.start
      → w.start < w.end
      → w.start < end
      → v.end ≤ a
      → area_at r.1 a ≡ some w

module _ (vs : List Vma) (hole end : ℕ) (v : Vma) (s : IsSorted 0 vs)
    (here : area_at vs v.start ≡ some v) (reach : hole < v.end) (below : v.start < end)
    (room : hole < end) (pos : v.start < v.end) where
  left_part :
      IsAddIf
        (ltb v.start hole)
        (without vs v.start)
        (new_vma v.start hole v.flags v.kind)
        (add_if (ltb v.start hole) (without vs v.start) (new_vma v.start hole v.flags v.kind))
  unfolding contains
  left_part =
      let out = without_lem vs v s here in
      add_if_lem (ltb v.start hole) (without vs v.start) _ out.sorted (λ e. ground arith)
        (λ a e c. ground (arith, out.attrs a))

  abbrev right_part : List Vma → Option Fault × List Vma
  right_part l = add_if (ltb end v.end) l (new_vma end v.end v.flags v.kind)

  left_free :
      (l : Option Fault × List Vma)
      → IsAddIf (ltb v.start hole) (without vs v.start) (new_vma v.start hole v.flags v.kind) l
      → (a : ℕ) → ltb end v.end ≡ true
      → contains (new_vma end v.end v.flags v.kind) a ≡ true
      → attr_at l.1 a ≡ none
  unfolding contains
  left_free l p a e c = let out = without_lem vs v s here in ground (arith, out.attrs a, p.attrs a)

  both_parts :
      (l : Option Fault × List Vma)
      → IsAddIf (ltb v.start hole) (without vs v.start) (new_vma v.start hole v.flags v.kind) l
      → IsAddIf (ltb end v.end) l.1 (new_vma end v.end v.flags v.kind) (right_part l.1)
      → IsPunched vs hole end v (right_part l.1)
  unfolding contains
  both_parts l p q =
      let out = without_lem vs v s here in
      record {
        done = q.done;
        sorted = q.sorted;
        attrs = λ a. ground (arith, out.attrs a, p.attrs a, q.attrs a, out.found a);
        areas = λ a w e k n b m.
            let inside = (attr_at-area_at vs a w e).1 in
            q.areas a w
              (p.areas a w (out.areas a ∙ ground arith) (inr (ground arith, ground arith)))
              (inl (ground arith));
      }

  -- One round of punch_hole for an area of the sorted list that meets the hole does not fail,
  -- keeps the areas sorted, uncovers the part of the area in the hole, and keeps the rights of
  -- every other address and every area off the hole that is not the one cut and does not touch it.
  pub punch_one_lem : IsPunched vs hole end v (punch_one vs hole end v)
  unfolding punch_one
  punch_one_lem = go _ left_part
    where
      go :
          (l : Option Fault × List Vma)
          → IsAddIf (ltb v.start hole) (without vs v.start) (new_vma v.start hole v.flags v.kind) l
          → IsPunched vs hole end v (elim l.0 [ some e ↦ l | none ↦ right_part l.1 ])
      go l p = rw p.done (
          both_parts l p
            (add_if_lem (ltb end v.end) l.1 _ p.sorted (λ e. ground arith) (left_free l p)))
