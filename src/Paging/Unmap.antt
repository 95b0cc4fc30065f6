-- ===== src/Paging/Unmap.antt =====
-- unmap and translate of kernel/src/paging.rs.
use mathlib.Core.Path.{subst}
use ferrum_os.Prelude.{
  ℕ, ◌%◌, ◌≡◌, refl, sym, ap, ◌∙◌, Bool, ◌||◌, ◌&&◌, true, false, ◌==◌, Option, none, some, add64,
  arith, Bool-cases, inl, inr,
}
use ferrum_os.Machine.{Machine, update, direct_mapped}
use ferrum_os.Paging.{
  is_present, is_huge, phys_addr, entry_at, from_u64, next_table, in_pd, in_pdpt, pd_entry,
  pt_entry, pd_mapped, pdpt_mapped, tables_mapped, pt_mapped, leaf_mapped, unmap_at, unmap,
  translate_at, translate,
}

-- Where the first walk succeeds, the second finds the same.
abbrev Within : Option ℕ → Option ℕ → Type 0
Within none r = Unit {0}
Within (some t) r = r ≡ some t

Within-refl : (r : Option ℕ) → Within r r
Within-refl none = tt
Within-refl (some t) = refl

-- A walk after an entry `e` is cleared finds nothing that it did not find before, and never `e`.
module _ (mem : ℕ → ℕ) (e : ℕ) where
  next_table-Within :
      (table index : ℕ)
      → Within (next_table (update mem e 0) table index) (next_table mem table index)
  next_table-Within table index = elim (Bool-cases (entry_at table index == e)) [
    | inl c ↦ rw (c, Within) tt
    | inr c ↦ rw (c, Within) (Within-refl (next_table mem table index))
  ]

  in_pd-Within :
      (virt : ℕ) (r q : Option ℕ)
      → Within r q
      → Within (in_pd (update mem e 0) virt r) (in_pd mem virt q)
  in_pd-Within virt none q h = tt
  in_pd-Within virt (some pd) q h = rw h (elim (Bool-cases (entry_at pd (from_u64 virt).pd == e)) [
    | inl c ↦ rw (c, Within) tt
    | inr c ↦ rw (c, Within) (Within-refl (in_pd mem virt (some pd)))
  ])

  in_pdpt-Within :
      (virt : ℕ) (r q : Option ℕ)
      → Within r q
      → Within (in_pdpt (update mem e 0) virt r) (in_pdpt mem virt q)
  in_pdpt-Within virt none q h = tt
  in_pdpt-Within virt (some pdpt) q h = rw h (
      in_pd-Within virt (next_table (update mem e 0) pdpt (from_u64 virt).pdpt)
        (next_table mem pdpt (from_u64 virt).pdpt) (next_table-Within pdpt (from_u64 virt).pdpt))

  pd_entry-Within :
      (pml4_phys virt : ℕ)
      → Within (pd_entry (update mem e 0) pml4_phys virt) (pd_entry mem pml4_phys virt)
  unfolding pd_entry
  pd_entry-Within pml4_phys virt =
      in_pdpt-Within virt (next_table (update mem e 0) pml4_phys (from_u64 virt).pml4)
        (next_table mem pml4_phys (from_u64 virt).pml4)
        (next_table-Within pml4_phys (from_u64 virt).pml4)

  in_pd-other :
      (virt : ℕ) (r : Option ℕ) (d : ℕ) → in_pd (update mem e 0) virt r ≡ some d → (d == e) ≡ false
  in_pd-other virt none d h = absurd (ground arith)
  in_pd-other virt (some pd) d h = elim (Bool-cases (entry_at pd (from_u64 virt).pd == e)) [
    | inl c ↦ absurd (ground arith)
    | inr c ↦ ground arith
  ]

  in_pdpt-other :
      (virt : ℕ) (r : Option ℕ) (d : ℕ)
      → in_pdpt (update mem e 0) virt r ≡ some d
      → (d == e) ≡ false
  in_pdpt-other virt none d h = absurd (ground arith)
  in_pdpt-other virt (some pdpt) d h =
      in_pd-other virt (next_table (update mem e 0) pdpt (from_u64 virt).pdpt) d h

  pd_entry-other :
      (pml4_phys virt d : ℕ) → pd_entry (update mem e 0) pml4_phys virt ≡ some d → (d == e) ≡ false
  unfolding pd_entry
  pd_entry-other pml4_phys virt d h =
      in_pdpt-other virt (next_table (update mem e 0) pml4_phys (from_u64 virt).pml4) d h

-- The walk ends at an entry for a table and not for a 2 MiB page.
abbrev pub IsSmall : (ℕ → ℕ) → Option ℕ → Type 0
IsSmall mem none = Unit {0}
IsSmall mem (some d) = is_huge (mem d) ≡ false

translate_at-cleared :
    (mem : ℕ → ℕ) (virt d : ℕ) (r : Option ℕ)
    → is_huge (mem d) ≡ false
    → Within r (some d)
    → ((d' : ℕ) → r ≡ some d' → (d' == pt_entry mem virt d) ≡ false)
    → translate_at (update mem (pt_entry mem virt d) 0) virt r ≡ none
translate_at-cleared mem virt d none small w other = refl
translate_at-cleared mem virt d (some d') small w other =
    let same : d' ≡ d = ground arith in
    let elsewhere : (d == pt_entry mem virt d) ≡ false =
      subst (λ x. (x == pt_entry mem virt d) ≡ false) same (other d' refl) in
    let here : (pt_entry mem virt d == pt_entry mem virt d) ≡ true = ground arith in
    rw same (rw elsewhere (rw small (rw here refl)))

and-left : (a b : Bool) → (a && b) ≡ true → a ≡ true
and-left true b h = refl
and-left false b h = absurd (ground arith)

and-right : (a b : Bool) → (a && b) ≡ true → b ≡ true
and-right true b h = h
and-right false b h = absurd (ground arith)

or-right : (a : Bool) {b : Bool} → b ≡ true → (a || b) ≡ true
or-right true h = refl
or-right false h = h

-- The tables of a walk after an entry is cleared are tables of the walk before.
pd_mapped-Within : (r q : Option ℕ) → Within r q → pd_mapped q ≡ true → pd_mapped r ≡ true
pd_mapped-Within none q w h = refl
pd_mapped-Within (some pd) q w h = sym (ap pd_mapped w) ∙ h

pdpt_mapped-Within :
    (mem : ℕ → ℕ) (e virt : ℕ) (r q : Option ℕ)
    → Within r q
    → pdpt_mapped mem virt q ≡ true
    → pdpt_mapped (update mem e 0) virt r ≡ true
pdpt_mapped-Within mem e virt none q w h = refl
pdpt_mapped-Within mem e virt (some pdpt) q w h =
    let i = (from_u64 virt).pdpt in
    let both : pdpt_mapped mem virt (some pdpt) ≡ true = sym (ap (pdpt_mapped mem virt) w) ∙ h in
    let below =
      pd_mapped-Within (next_table (update mem e 0) pdpt i) (next_table mem pdpt i)
        (next_table-Within mem e pdpt i) (and-right _ _ both) in
    let here : direct_mapped pdpt ≡ true = and-left _ _ both in rw here below

tables_mapped-kept :
    (mem : ℕ → ℕ) (e pml4_phys virt : ℕ)
    → tables_mapped mem pml4_phys virt ≡ true
    → tables_mapped (update mem e 0) pml4_phys virt ≡ true
unfolding tables_mapped
tables_mapped-kept mem e pml4_phys virt h =
    let i = (from_u64 virt).pml4 in
    let below =
      pdpt_mapped-Within mem e virt (next_table (update mem e 0) pml4_phys i)
        (next_table mem pml4_phys i) (next_table-Within mem e pml4_phys i) (and-right _ _ h) in
    let here : direct_mapped pml4_phys ≡ true = and-left _ _ h in rw here below

leaf_mapped-kept :
    (mem : ℕ → ℕ) (e d : ℕ) (r : Option ℕ)
    → pt_mapped mem (some d) ≡ true
    → Within r (some d)
    → ((d' : ℕ) → r ≡ some d' → (d' == e) ≡ false)
    → leaf_mapped (update mem e 0) r ≡ true
leaf_mapped-kept mem e d none h w other = refl
leaf_mapped-kept mem e d (some d') h w other =
    let same : d' ≡ d = ground arith in
    let elsewhere : (d == e) ≡ false = subst (λ x. (x == e) ≡ false) same (other d' refl) in
    rw same (rw elsewhere (or-right (is_huge (mem d)) h))

small_leaf : (mem : ℕ → ℕ) (r : Option ℕ) → IsSmall mem r → leaf_mapped mem r ≡ pt_mapped mem r
small_leaf mem none h = refl
small_leaf mem (some d) h = rw h refl

abbrev pub shifted_by : ℕ → Option ℕ → Option ℕ
shifted_by offset none = none
shifted_by offset (some page) = some (add64 page offset)

-- What unmap promises: it panics where translate panics; else it returns the page that the address
-- was translated to, and afterwards the address is not translated.
abbrev pub Unmapped : ℕ → ℕ → Machine → Option (Option ℕ × Machine) → Type 0
Unmapped pml4_phys virt m none = translate pml4_phys virt m ≡ none
Unmapped pml4_phys virt m (some (page, m')) =
    (translate pml4_phys virt m ≡ some (shifted_by (virt % 4096) page, m))
    × (translate pml4_phys virt m' ≡ some (none, m'))

unmap_at-Unmapped :
    (pml4_phys virt : ℕ) (m : Machine) (r : Option ℕ)
    → pd_entry m.mem pml4_phys virt ≡ r
    → IsSmall m.mem r
    → tables_mapped m.mem pml4_phys virt ≡ true
    → pt_mapped m.mem r ≡ true
    → Unmapped pml4_phys virt m (unmap_at virt r m)
unfolding translate
unmap_at-Unmapped pml4_phys virt m none at small tables leaf =
    let gone : translate pml4_phys virt m ≡ some (none, m) = rw (tables, at) refl in (gone, gone)
unmap_at-Unmapped pml4_phys virt m (some d) at small tables leaf =
    let e = pt_entry m.mem virt d in
    let leaf' = small_leaf m.mem (some d) small ∙ leaf in
    elim (Bool-cases (is_present (m.mem e))) [
      | inr c ↦
          let gone : translate pml4_phys virt m ≡ some (none, m) =
            rw (tables, at) (rw leaf' (rw small (rw c refl))) in
          rw (c, Unmapped) (gone, gone)
      | inl c ↦
          let was : translate pml4_phys virt m
              ≡ some (some (add64 (phys_addr (m.mem e)) (from_u64 virt).offset), m) =
            rw (tables, at) (rw leaf' (rw small (rw c refl))) in
          let mem' = update m.mem e 0 in
          let r = pd_entry mem' pml4_phys virt in
          let within = subst (Within r) at (pd_entry-Within m.mem e pml4_phys virt) in
          let other : (d' : ℕ) → r ≡ some d' → (d' == e) ≡ false =
            λ d' h. pd_entry-other m.mem e pml4_phys virt d' h in
          rw (c, Unmapped)
            (
              was,
              rw
                  (
                    tables_mapped-kept m.mem e pml4_phys virt tables,
                    leaf_mapped-kept m.mem e d r leaf within other,
                  )
                  (ap (λ x. some (x, record m { mem = mem' }))
                    (translate_at-cleared m.mem virt d r small within other)),
            )
    ]

-- If the walk to the address does not end at a 2 MiB page, unmap panics exactly where translate
-- does, at a table for which phys_to_virt has no address; else it returns the page that the
-- address was translated to, or none if it was not translated, and afterwards translate finds
-- nothing at the address, and does not panic, whatever tables share their memory.
pub unmap-Unmapped :
    (pml4_phys virt : ℕ) (m : Machine)
    → IsSmall m.mem (pd_entry m.mem pml4_phys virt)
    → Unmapped pml4_phys virt m (unmap pml4_phys virt m)
unfolding unmap translate
unmap-Unmapped pml4_phys virt m small =
    let d = pd_entry m.mem pml4_phys virt in
    elim (Bool-cases (tables_mapped m.mem pml4_phys virt && pt_mapped m.mem d)) [
      | inl c ↦
          rw (c, Unmapped)
            (unmap_at-Unmapped pml4_phys virt m d refl small (and-left _ _ c) (and-right _ _ c))
      | inr c ↦ rw (c, Unmapped) (rw (small_leaf m.mem d small) (rw c refl))
    ]
