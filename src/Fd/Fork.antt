-- ===== src/Fd/Fork.antt =====
-- `fork_clone` of kernel/src/fd.rs: the child's table and the reference counts of pipes.
use ferrum_os.Prelude.{ℕ, ◌+◌, ◌≡◌, refl, ◌∙◌, ap, none, some, [], ◌∷◌, arith, get_elem?}
use ferrum_os.Fd.{PipeInner, Objects, FdTable, acquire, fork_clone}
use ferrum_os.Fd.Counts.{Side, counted, refs, IsBalanced, files-acquire, acquire-counted}

fork_clone-copy : (t : FdTable) (o : Objects) → (fork_clone t o).0 ≡ t
unfolding fork_clone
fork_clone-copy [] o = refl
fork_clone-copy (none ∷ t) o = ap (λ r. none ∷ r) (fork_clone-copy t o)
fork_clone-copy (some e ∷ t) o = ap (λ r. some e ∷ r) (fork_clone-copy t (acquire o e))

files-fork_clone : (t : FdTable) (o : Objects) → (fork_clone t o).1.files ≡ o.files
unfolding fork_clone
files-fork_clone [] o = refl
files-fork_clone (none ∷ t) o = files-fork_clone t o
files-fork_clone (some e ∷ t) o = files-fork_clone t (acquire o e) ∙ files-acquire o e

fork_counted :
    (side : Side) (k : ℕ) (t : FdTable) (o : Objects) (p' : PipeInner)
    → get_elem? (fork_clone t o).1.pipes k ≡ some p'
    → (p : PipeInner) × (get_elem? o.pipes k ≡ some p)
      × (counted side p' ≡ counted side p + refs side o.files k t)
unfolding fork_clone refs
fork_counted side k [] o p' h = (p', h, omega arith)
fork_counted side k (none ∷ t) o p' h =
    let (p, found, c) = fork_counted side k t o p' h in (p, found, omega (arith, c))
fork_counted side k (some e ∷ t) o p' h =
    let (p, found, c) = fork_counted side k t (acquire o e) p' h in
    let (q, found', c') = acquire-counted o e side k p found in
    let same : refs side (acquire o e).files k t ≡ refs side o.files k t =
      ap (λ files. refs side files k t) (files-acquire o e) in
    (q, found', omega (arith, c, c', same))

-- what the table and its copy hold together, beside the other tables
abbrev pub and_table : (Side → ℕ → ℕ) → Objects → FdTable → Side → ℕ → ℕ
and_table others o t side k = others side k + refs side o.files k t

-- If every pipe counts the descriptors that hold its ends, fork_clone returns a copy of the table,
-- and every pipe then counts the descriptors of the others, of the table and of the copy.
pub fork_clone-IsBalanced :
    (others : Side → ℕ → ℕ) (o : Objects) (t : FdTable)
    → IsBalanced others o t
    → ((fork_clone t o).0 ≡ t)
      × (IsBalanced (and_table others o t) (fork_clone t o).1 (fork_clone t o).0)
fork_clone-IsBalanced others o t b = (
  fork_clone-copy t o,
  record {
    count = λ side k p' h.
        let (p, found, c) = fork_counted side k t o p' h in
        rw (files-fork_clone t o, fork_clone-copy t o) (omega (arith, c, b.count side k p found));
  },
)
