-- ===== src/Fd/CloseAll.antt =====
-- The loop over all descriptors with which a process gives them back when it dies.
use ferrum_os.Prelude.{
  ℕ, zero, suc, ◌+◌, ◌≤◌, ◌<◌, ◌≡◌, refl, sym, ◌∙◌, ap, Bool, true, false, Option, none, some, List,
  [], ◌∷◌, arith, if◌then◌else◌, ltb, leb, ◌==◌, ◌&&◌, length, get_elem?, set, Bool-cases, inl, inr,
  length-set,
}
use ferrum_os.Fd.{OpenFile, PipeInner, Objects, FdTable, get, close, close_all, drop_entry, fd_max}
use ferrum_os.Fd.Counts.{Side, counted, refs, IsBalanced}
use ferrum_os.Fd.Dup.{close-IsBalanced}

pub get-set :
    (t : FdTable) (fd k : ℕ) (slot : Option ℕ)
    → fd < length t
    → get (set t fd slot) k ≡ (if fd == k then slot else get t k)
unfolding get
get-set [] fd k slot lt = absurd (omega arith)
get-set (s ∷ t) zero zero slot lt = refl
get-set (s ∷ t) zero (suc k) slot lt = ground arith
get-set (s ∷ t) (suc fd) zero slot lt = ground arith
get-set (s ∷ t) (suc fd) (suc k) slot lt = ground (arith, get-set t fd k slot (omega arith))

-- A descriptor that is in use is one of the table's.
in_use_lt : (t : FdTable) (fd e : ℕ) → get t fd ≡ some e → fd < length t
unfolding get
in_use_lt [] fd e h = absurd (ground arith)
in_use_lt (s ∷ t) zero e h = omega arith
in_use_lt (s ∷ t) (suc fd) e h = omega (arith, in_use_lt t fd e h)

pub get-close :
    (t : FdTable) (o : Objects) (fd k : ℕ)
    → get (close t o fd).1 k ≡ (if fd == k then none else get t k)
unfolding close
get-close t o fd k = go (get t fd) refl
  where
    go :
        (r : Option ℕ)
        → get t fd ≡ r
        → let c : Bool × FdTable × Objects = elim r [
          | none ↦ (false, t, o)
          | some entry ↦ (true, set t fd none, drop_entry o entry)
        ] in
          get c.1 k ≡ (if fd == k then none else get t k)
    go none e = elim (Bool-cases (fd == k)) [
      | inl c ↦ let same : fd ≡ k = ground arith in rw c (ap (get t) (sym same) ∙ e)
      | inr c ↦ rw c refl
    ]
    go (some entry) e = get-set t fd k none (in_use_lt t fd entry e)

get-close_all :
    (n : ℕ) (t : FdTable) (o : Objects) (fd k : ℕ)
    → get (close_all t o fd n).0 k ≡ (if leb fd k && ltb k (fd + n) then none else get t k)
unfolding close_all
get-close_all zero t o fd k = ground arith
get-close_all (suc n) t o fd k =
    ground (arith, get-close_all n (close t o fd).1 (close t o fd).2 (fd + 1) k, get-close t o fd k)

close_all-IsBalanced :
    (others : Side → ℕ → ℕ) (n : ℕ) (t : FdTable) (o : Objects) (fd : ℕ)
    → IsBalanced others o t
    → IsBalanced others (close_all t o fd n).1 (close_all t o fd n).0
unfolding close_all
close_all-IsBalanced others zero t o fd b = b
close_all-IsBalanced others (suc n) t o fd b =
    close_all-IsBalanced others n (close t o fd).1 (close t o fd).2 (fd + 1)
      (close-IsBalanced others o t b fd)

pub length-close : (t : FdTable) (o : Objects) (fd : ℕ) → length (close t o fd).1 ≡ length t
unfolding close
length-close t o fd = go (get t fd)
  where
    go :
        (r : Option ℕ)
        → let c : Bool × FdTable × Objects = elim r [
          | none ↦ (false, t, o)
          | some entry ↦ (true, set t fd none, drop_entry o entry)
        ] in
          length c.1 ≡ length t
    go none = refl
    go (some entry) = length-set t fd none

get_outside : (t : FdTable) (k : ℕ) → length t ≤ k → get t k ≡ none
unfolding get
get_outside [] k h = refl
get_outside (s ∷ t) zero h = absurd (omega arith)
get_outside (s ∷ t) (suc k) h = get_outside t k (omega arith)

refs_empty :
    (side : Side) (files : List OpenFile) (p : ℕ) (t : FdTable)
    → ((k : ℕ) → get t k ≡ none)
    → refs side files p t ≡ 0
unfolding refs get
refs_empty side files p [] h = refl
refs_empty side files p (none ∷ t) h = omega (arith, refs_empty side files p t (λ k. h (suc k)))
refs_empty side files p (some e ∷ t) h = absurd (ground (arith, h 0))

-- If every pipe counts the descriptors that hold its ends, in a full-size table and in the others,
-- then after all descriptors of the table are closed the table is empty and every pipe counts the
-- ends that the other tables hold.
pub close_all-counts :
    (others : Side → ℕ → ℕ) (o : Objects) (t : FdTable)
    → IsBalanced others o t
    → length t ≡ fd_max
    → ((k : ℕ) → get (close_all t o 0 fd_max).0 k ≡ none)
      × ((side : Side) (k : ℕ) (p : PipeInner)
          → get_elem? (close_all t o 0 fd_max).1.pipes k ≡ some p
          → counted side p ≡ others side k)
close_all-counts others o t b full =
    let closed : (k : ℕ) → get (close_all t o 0 fd_max).0 k ≡ none = λ k.
      elim (Bool-cases (leb 0 k && ltb k (0 + fd_max))) [
        | inl c ↦ get-close_all fd_max t o 0 k ∙ rw c refl
        | inr c ↦ get-close_all fd_max t o 0 k ∙ rw c (get_outside t k (ground arith))
      ] in
    (
      closed,
      λ side k p h.
          (close_all-IsBalanced others fd_max t o 0 b).count side k p h
          ∙ omega (
            arith,
            refs_empty side (close_all t o 0 fd_max).1.files k (close_all t o 0 fd_max).0 closed,
          ),
    )
