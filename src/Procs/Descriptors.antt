-- ===== src/Procs/Descriptors.antt =====
-- The handlers of dup, dup2 and close in kernel/src/syscall.rs against the counts of pipes.
use ferrum_os.Prelude.{
  ℕ, zero, suc, ◌<◌, ◌≡◌, refl, ◌∙◌, ap, Bool, true, false, Option, none, some, [], ◌∷◌, arith,
  if◌then◌else◌, ltb, leb, ◌==◌, length, get_elem?, Bool-cases, inl, inr,
}
use ferrum_os.Fd.{Objects, FdTable, get, close, put, alloc_entry, fd_max}
use ferrum_os.Fd.Counts.{Side, IsBalanced}
use ferrum_os.Fd.Dup.{close-IsBalanced, alloc_entry-IsBalanced, put-IsBalanced}
use ferrum_os.Fd.CloseAll.{get-set, get-close, length-close}
use ferrum_os.Procs.{errno, new_descriptor, syscall_dup, syscall_dup2}

free_slot : (t : FdTable) (fd : ℕ) → get t fd ≡ none → fd < length t → get_elem? t fd ≡ some none
unfolding get
free_slot [] fd h lt = absurd (omega arith)
free_slot (none ∷ t) zero h lt = refl
free_slot (some e ∷ t) zero h lt = absurd (ground arith)
free_slot (s ∷ t) (suc fd) h lt = free_slot t fd h (omega arith)

get-put :
    (t : FdTable) (o : Objects) (fd e k : ℕ)
    → fd < fd_max
    → fd < length t
    → get (put t o fd e).0 k ≡ (if fd == k then some e else get t k)
unfolding put
get-put t o fd e k lt in_table =
    let test : ltb fd fd_max ≡ true = ground arith in rw test (get-set t fd k (some e) in_table)

module _ (others : Side → ℕ → ℕ) (o : Objects) (t : FdTable) (b : IsBalanced others o t) where
  -- close and put at descriptor `newfd`, as dup2 calls them
  replace_descriptor :
      (newfd e : ℕ)
      → newfd < length t
      → newfd < fd_max
      → let c : Bool × FdTable × Objects = close t o newfd in
        let d : FdTable × Objects = put c.1 c.2 newfd e in
        ((k : ℕ) → get d.0 k ≡ (if newfd == k then some e else get t k)) × IsBalanced others d.1 d.0
  replace_descriptor newfd e in_table lt =
      let c = close t o newfd in
      let here : newfd < length c.1 = omega (arith, length-close t o newfd, in_table) in
      let free : get c.1 newfd ≡ none = get-close t o newfd newfd ∙ ground arith in
      (
        λ k. get-put c.1 c.2 newfd e k lt here ∙ ground (arith, get-close t o newfd k),
        put-IsBalanced others c.2 c.1 (close-IsBalanced others o t b newfd) newfd e
            (free_slot c.1 newfd free here),
      )

  -- For an open oldfd and a newfd below 16, in a full-size table with right pipe counts, dup2
  -- returns newfd, makes it refer to the same open file, changes no other descriptor, and leaves
  -- the pipe counts right.
  pub syscall_dup2-aliases :
      (oldfd newfd e : ℕ)
      → length t ≡ fd_max
      → newfd < fd_max
      → get t oldfd ≡ some e
      → let r : ℕ × FdTable × Objects = syscall_dup2 oldfd newfd t o in
        (r.0 ≡ newfd)
        × ((k : ℕ) → get r.1 k ≡ (if newfd == k then some e else get t k))
        × IsBalanced others r.2 r.1
  unfolding syscall_dup2
  syscall_dup2-aliases oldfd newfd e full lt used =
      let guard : leb fd_max newfd ≡ false = ground arith in
      elim (Bool-cases (oldfd == newfd)) [
        | inl c ↦
            let same : oldfd ≡ newfd = ground arith in
            rw (guard, used, c) (refl, λ k. aliased same k, b)
        | inr c ↦
            let (gets, counts) = replace_descriptor newfd e (omega (arith, full, lt)) lt in
            rw (guard, used, c) (refl, gets, counts)
      ]
    where
      aliased : oldfd ≡ newfd → (k : ℕ) → get t k ≡ (if newfd == k then some e else get t k)
      aliased same k = elim (Bool-cases (newfd == k)) [
        | inl c ↦ let at : k ≡ oldfd = ground arith in rw c (ap (get t) at ∙ used)
        | inr c ↦ rw c refl
      ]

  -- If every pipe counts the descriptors that hold its ends, so it does after dup of any
  -- descriptor, whatever dup returns.
  pub syscall_dup-IsBalanced :
      (oldfd : ℕ)
      → let r : ℕ × FdTable × Objects = syscall_dup oldfd t o in IsBalanced others r.2 r.1
  unfolding syscall_dup
  syscall_dup-IsBalanced oldfd = go (get t oldfd)
    where
      go :
          (g : Option ℕ)
          → let r : ℕ × FdTable × Objects = elim g [
            | none ↦ (errno 9, t, o)
            | some entry ↦ let c = alloc_entry t o entry in (new_descriptor c.0, c.1, c.2)
          ] in
            IsBalanced others r.2 r.1
      go none = b
      go (some e) = alloc_entry-IsBalanced others o t b e
