-- ===== src/Vma/Fixed.antt =====
-- `mmap_fixed` of kernel/src/vma.rs as a whole: the loop of `punch_hole`, then the new area.
use ferrum_os.Prelude.{
  ℕ, ◌≤◌, ◌<◌, ◌≡◌, refl, true, ◌&&◌, Option, none, some, List, [], ◌∷◌, arith, Result, ok, err,
  Fault, is_some, if◌then◌else◌, page_up, add64, min, max,
}
use ferrum_os.Machine.{Machine, M, pure, and_then, ◌>>◌}
use ferrum_os.Vma.{Vma, VmaFlags, VmaKind, contains, add_vma}
use ferrum_os.Vma.Area.{new_vma, overlapping, punch_one}
use ferrum_os.Vma.Cover.{area_at, attr_at, IsSorted, attr_at-area_at, area_at-attr_at}
use ferrum_os.Vma.Add.{Added, add_vma-Added}
use ferrum_os.Vma.Punch.{IsCut, overlapping_lem}
use ferrum_os.Vma.Cut.{in_hole, IsPunched, punch_one_lem}
use ferrum_os.Vma.Space.{AddressSpace, release_pages, rounds, punch_areas, mmap_fixed, fixed_result}

-- the list that the loop of `punch_hole` leaves
punch_list : ℕ → ℕ → List Vma → List Vma → Option Fault × List Vma
punch_list hole end [] vmas = (none, vmas)
punch_list hole end (v ∷ ov) vmas =
    let cut = punch_one vmas hole end v in
    elim cut.0 [ some e ↦ cut | none ↦ punch_list hole end ov cut.1 ]

-- the pages that the loop gives back when no round fails
pub release_cut : ℕ → ℕ → ℕ → List Vma → M (Unit {0})
release_cut pml4 hole end [] = pure tt
release_cut pml4 hole end (v ∷ ov) = do
  let from = max v.start hole
  let clip_end = min v.end end
  release_pages (rounds from clip_end) pml4 from clip_end
  release_cut pml4 hole end ov

IsCut-kept :
    (vs : List Vma) (hole end lo : ℕ) (v : Vma) (r : Option Fault × List Vma) (ov : List Vma)
    → IsPunched vs hole end v r
    → v.end ≤ lo
    → IsSorted lo ov
    → IsCut vs hole end ov
    → IsCut r.1 hole end ov
IsCut-kept vs hole end lo v r [] p l s c = tt
IsCut-kept vs hole end lo v r (w ∷ ov) p l s c = (
  p.areas w.start w c.0 (omega (arith, s.0)) s.1 c.2 (omega (arith, s.0)),
  c.1,
  c.2,
  IsCut-kept vs hole end w.end v r ov p (omega (arith, s.0, s.1)) s.2 c.3,
)

punch_list-cons :
    (hole end : ℕ) (v : Vma) (ov vs : List Vma)
    → (punch_one vs hole end v).0 ≡ none
    → punch_list hole end (v ∷ ov) vs ≡ punch_list hole end ov (punch_one vs hole end v).1
unfolding punch_list
punch_list-cons hole end v ov vs e = ground arith

-- What the whole loop owes.
record IsHoled (vs : List Vma) (hole end : ℕ) (ov : List Vma) (r : Option Fault × List Vma)
    : Type 0 where
  done : r.0 ≡ none
  sorted : IsSorted 0 r.1
  attrs :
      (a : ℕ)
      → attr_at r.1 a
        ≡ (if in_hole hole end a && is_some (area_at ov a) then none else attr_at vs a)

punch_list_lem :
    (hole end lo : ℕ) (ov vs : List Vma)
    → hole < end
    → IsSorted 0 vs
    → IsSorted lo ov
    → IsCut vs hole end ov
    → IsHoled vs hole end ov (punch_list hole end ov vs)
unfolding punch_list area_at
punch_list_lem hole end lo [] vs h s t c = record {
  done = refl;
  sorted = s;
  attrs = λ a. ground arith;
}
punch_list_lem hole end lo (v ∷ ov) vs h s t c =
    let p = punch_one_lem vs hole end v s c.0 c.1 c.2 h t.1 in
    let q =
      punch_list_lem hole end v.end ov (punch_one vs hole end v).1 h p.sorted t.2
        (IsCut-kept vs hole end v.end v (punch_one vs hole end v) ov p (omega arith) t.2 c.3) in
    rw (punch_list-cons hole end v ov vs p.done) (record {
      done = q.done;
      sorted = q.sorted;
      attrs = λ a. ground (arith, p.attrs a, q.attrs a);
    })

-- The loop of the model releases the pages and leaves that list.
punch_areas_lem :
    (pml4 hole end lo : ℕ) (ov vs : List Vma) (m : Machine)
    → hole < end
    → IsSorted 0 vs
    → IsSorted lo ov
    → IsCut vs hole end ov
    → punch_areas pml4 hole end ov vs m
      ≡ and_then (release_cut pml4 hole end ov m) (λ _ m'. some (punch_list hole end ov vs, m'))
unfolding punch_areas release_cut punch_list
punch_areas_lem pml4 hole end lo [] vs m h s t c = refl
punch_areas_lem pml4 hole end lo (v ∷ ov) vs m h s t c =
    rw (punch_list-cons hole end v ov vs p.done) (
      go (release_pages (rounds from clip_end) pml4 from clip_end m) (λ m'.
        punch_areas_lem pml4 hole end v.end ov (punch_one vs hole end v).1 m' h p.sorted t.2
          (IsCut-kept vs hole end v.end v (punch_one vs hole end v) ov p (omega arith) t.2 c.3)))
  where
    from : ℕ
    from = max v.start hole

    clip_end : ℕ
    clip_end = min v.end end

    p : IsPunched vs hole end v (punch_one vs hole end v)
    p = punch_one_lem vs hole end v s c.0 c.1 c.2 h t.1

    go :
        (o : Option (Unit {0} × Machine))
        → ((m' : Machine)
            → punch_areas pml4 hole end ov (punch_one vs hole end v).1 m'
              ≡ and_then
                  (release_cut pml4 hole end ov m')
                  (λ _ m''. some (punch_list hole end ov (punch_one vs hole end v).1, m'')))
        → and_then o (λ _ m'. elim (punch_one vs hole end v).0 [
          | some e ↦ some (punch_one vs hole end v, m')
          | none ↦ punch_areas pml4 hole end ov (punch_one vs hole end v).1 m'
        ])
          ≡ and_then
              (and_then o (λ _. release_cut pml4 hole end ov))
              (λ _ m'. some (punch_list hole end ov (punch_one vs hole end v).1, m'))
    go none ih = refl
    go (some (_, m')) ih = rw p.done (ih m')

-- What `mmap_fixed` promises about the covered addresses.
pub record IsFixed (vs : List Vma) (start end : ℕ) (f : VmaFlags) (k : VmaKind) (t : List Vma)
    : Type 0 where
  pub sorted : IsSorted 0 t
  pub attrs : (a : ℕ) → attr_at t a ≡ (if in_hole start end a then some (f, k) else attr_at vs a)

add_to_hole :
    (vs : List Vma) (start end : ℕ) (f : VmaFlags) (k : VmaKind) (r : Option Fault × List Vma)
    → start < end
    → IsSorted 0 vs
    → IsHoled vs start end (overlapping vs start end) r
    → (t : List Vma) × (add_vma r.1 (new_vma start end f k) ≡ ok t) × IsFixed vs start end f k t
unfolding contains
add_to_hole vs start end f k r h s holed =
    go (add_vma r.1 x) refl (add_vma-Added 0 r.1 x (omega arith) h holed.sorted)
  where
    x : Vma
    x = new_vma start end f k

    clear : (a : ℕ) → contains x a ≡ true → attr_at r.1 a ≡ none
    clear a c =
        let same = (overlapping_lem vs start end s).2 a (ground arith) (ground arith) in
        ground (arith, holed.attrs a, same, area_at-attr_at vs a, attr_at-area_at vs a)

    go :
        (q : Result (List Vma))
        → add_vma r.1 x ≡ q
        → Added 0 r.1 x q
        → (t : List Vma) × (add_vma r.1 x ≡ ok t) × IsFixed vs start end f k t
    go (ok t) e (sorted, attrs, _, _) =
        (t, e, record { sorted = sorted; attrs = λ a. ground (arith, attrs a, holed.attrs a) })
    go (err g) e (_, a, c, i) = absurd (ground (arith, clear a c))

fixed_result_ok :
    (s : AddressSpace) (start : ℕ) (x : Vma) (t : List Vma) (r : Option Fault × List Vma)
    → r.0 ≡ none
    → add_vma r.1 x ≡ ok t
    → fixed_result s start x r ≡ (ok start, record s { vmas = t })
fixed_result_ok s start x t r d e = ground arith

-- The end of `mmap_fixed`, once the loop has left the list `r.1`.
finish :
    (s : AddressSpace) (start : ℕ) (x : Vma) (t : List Vma) (r : Option Fault × List Vma)
    → r.0 ≡ none
    → add_vma r.1 x ≡ ok t
    → (o : Option (Unit {0} × Machine))
    → and_then {B = Result ℕ × AddressSpace}
        (and_then {B = Option Fault × List Vma} o (λ _ m'. some (r, m')))
        (λ holed. pure (fixed_result s start x holed))
      ≡ and_then o (λ _ m'. some ((ok start, record s { vmas = t }), m'))
finish s start x t r d e none = refl
finish s start x t r d e (some (_, m')) = rw (fixed_result_ok s start x t r d e) refl

-- On sorted areas a fixed mapping of a non-empty range never returns an error: it is the release
-- of the pages of the hole (which may panic) followed by the return of the page-aligned address
-- with areas that are sorted, give every address of the range the asked rights and kind, and every
-- other address what it had.
pub mmap_fixed-IsFixed :
    (s : AddressSpace) (addr size : ℕ) (f : VmaFlags) (k : VmaKind)
    → page_up addr < page_up (add64 (page_up addr) size)
    → IsSorted 0 s.vmas
    → (t : List Vma) × IsFixed s.vmas (page_up addr) (page_up (add64 (page_up addr) size)) f k t
      × ((m : Machine)
          → mmap_fixed s addr size f k m
            ≡ and_then
                (release_cut s.pml4_phys
                  (page_up addr)
                  (page_up (add64 (page_up addr) size))
                  (overlapping s.vmas (page_up addr) (page_up (add64 (page_up addr) size)))
                  m)
                (λ _ m'. some ((ok (page_up addr), record s { vmas = t }), m')))
unfolding mmap_fixed
mmap_fixed-IsFixed s addr size f k h sorted =
    let start = page_up addr in
    let end = page_up (add64 start size) in
    let over = overlapping_lem s.vmas start end sorted in
    let holed =
      punch_list_lem start end 0 (overlapping s.vmas start end) s.vmas h sorted over.0 over.1 in
    let (t, added, fixed) =
      add_to_hole s.vmas start end f k (punch_list start end (overlapping s.vmas start end) s.vmas)
        h sorted holed in
    (
      t,
      fixed,
      λ m.
          rw
            (punch_areas_lem s.pml4_phys start end 0 (overlapping s.vmas start end) s.vmas m h
              sorted over.0 over.1)
            (finish s start (new_vma start end f k) t
              (punch_list start end (overlapping s.vmas start end) s.vmas) holed.done added
              (release_cut s.pml4_phys start end (overlapping s.vmas start end) m)),
    )
