-- ===== src/Fd/Dup.antt =====
-- Operations of one descriptor table in kernel/src/fd.rs against the reference counts of pipes.
use ferrum_os.Prelude.{
  ℕ, suc, ◌+◌, ◌≤◌, ◌≡◌, refl, Bool, true, false, Option, none, some, [], ◌∷◌, arith, ltb,
  get_elem?, set, Bool-cases, inl, inr,
}
use ferrum_os.Fd.{
  PipeInner, Objects, FdTable, get, first_free, acquire, drop_entry, close, alloc_entry, alloc_from,
  put, fd_max,
}
use ferrum_os.Fd.Counts.{
  Side, counted, end_of, refs, IsBalanced, refs-set, files-acquire, files-drop_entry,
  acquire-counted, drop_entry-counted,
}

-- A free slot is found where it is free, at or behind the asked descriptor.
first_free_at :
    (minfd i : ℕ) (t : FdTable) (j : ℕ)
    → first_free minfd i t ≡ some j
    → (k : ℕ) × (j ≡ k + i) × (minfd ≤ j) × (get_elem? t k ≡ some none)
unfolding first_free
first_free_at minfd i [] j h = absurd (ground arith)
first_free_at minfd i (some f ∷ t) j h =
    let (k, at, ge, free) = first_free_at minfd (i + 1) t j h in (suc k, omega arith, ge, free)
first_free_at minfd i (none ∷ t) j h = elim (Bool-cases (ltb i minfd)) [
  | inl c ↦
      let (k, at, ge, free) = first_free_at minfd (i + 1) t j (ground arith) in
      (suc k, omega arith, ge, free)
  | inr c ↦ (0, ground arith, ground arith, refl)
]

pub first_free_lem :
    (minfd : ℕ) (t : FdTable) (j : ℕ)
    → first_free minfd 0 t ≡ some j
    → (minfd ≤ j) × (get_elem? t j ≡ some none)
first_free_lem minfd t j h =
    let (k, at, ge, free) = first_free_at minfd 0 t j h in (ge, ground arith)

get-some : (t : FdTable) (fd e : ℕ) → get t fd ≡ some e → get_elem? t fd ≡ some (some e)
unfolding get
get-some t fd e h = ground arith

module _ (others : Side → ℕ → ℕ) (o : Objects) (t : FdTable) (b : IsBalanced others o t) where
  -- One more slot refers to the entry, and its ends are counted.
  fill-IsBalanced :
      (i e : ℕ) → get_elem? t i ≡ some none → IsBalanced others (acquire o e) (set t i (some e))
  fill-IsBalanced i e free = record {
    count = λ side k p' h.
        let (p, found, c) = acquire-counted o e side k p' h in
        rw (files-acquire o e) (
          omega (arith, c, b.count side k p found, refs-set side o.files k t i none (some e) free));
  }

  vacate-IsBalanced :
      (i e : ℕ) → get_elem? t i ≡ some (some e) → IsBalanced others (drop_entry o e) (set t i none)
  vacate-IsBalanced i e held = record {
    count = λ side k p' h.
        let (p, found, c) = drop_entry-counted o e side k p' h in
        rw (files-drop_entry o e) (
          omega (arith, c, b.count side k p found, refs-set side o.files k t i (some e) none held));
  }

  pub close-IsBalanced : (fd : ℕ) → IsBalanced others (close t o fd).2 (close t o fd).1
  unfolding close
  close-IsBalanced fd = go (get t fd) refl
    where
      go :
          (r : Option ℕ)
          → get t fd ≡ r
          → let c : Bool × FdTable × Objects = elim r [
            | none ↦ (false, t, o)
            | some entry ↦ (true, set t fd none, drop_entry o entry)
          ] in
            IsBalanced others c.2 c.1
      go none e = b
      go (some entry) e = vacate-IsBalanced fd entry (get-some t fd entry e)

  pub alloc_entry-IsBalanced :
      (e : ℕ) → IsBalanced others (alloc_entry t o e).2 (alloc_entry t o e).1
  unfolding alloc_entry
  alloc_entry-IsBalanced e = go (first_free 0 0 t) refl
    where
      go :
          (r : Option ℕ)
          → first_free 0 0 t ≡ r
          → let c : Option ℕ × FdTable × Objects = elim r [
            | none ↦ (none, t, o)
            | some i ↦ (some i, set t i (some e), acquire o e)
          ] in
            IsBalanced others c.2 c.1
      go none h = b
      go (some i) h = fill-IsBalanced i e (first_free_lem 0 t i h).1

  pub put-IsBalanced :
      (fd e : ℕ) → get_elem? t fd ≡ some none → IsBalanced others (put t o fd e).1 (put t o fd e).0
  unfolding put
  put-IsBalanced fd e free = elim (Bool-cases (ltb fd fd_max)) [
    | inl c ↦ rw c (fill-IsBalanced fd e free)
    | inr c ↦ rw c b
  ]

  -- If every pipe counts the descriptors that hold its ends, then after a successful alloc_from
  -- each end of each pipe counts as many less than is held as the entry holds of that end: the new
  -- descriptor is not counted.
  pub alloc_from-uncounted :
      (e minfd i : ℕ) (side : Side) (k : ℕ) (p : PipeInner)
      → (alloc_from t e minfd).0 ≡ some i
      → get_elem? o.pipes k ≡ some p
      → counted side p + end_of side o.files k e
        ≡ others side k + refs side o.files k (alloc_from t e minfd).1
  unfolding alloc_from
  alloc_from-uncounted e minfd i side k p = go (first_free minfd 0 t) refl
    where
      go :
          (r : Option ℕ)
          → first_free minfd 0 t ≡ r
          → let c : Option ℕ × FdTable = elim r [
            | none ↦ (none, t)
            | some i ↦ (some i, set t i (some e))
          ] in
            c.0 ≡ some i
            → get_elem? o.pipes k ≡ some p
            → counted side p + end_of side o.files k e ≡ others side k + refs side o.files k c.1
      go none h g found = absurd (ground arith)
      go (some j) h g found = omega (
        arith,
        b.count side k p found,
        refs-set side o.files k t j none (some e) (first_free_lem minfd t j h).1,
      )
