-- ===== src/Tests/Files.antt =====
-- A descriptor table with both ends of one pipe, as kernel/src/fd.rs keeps it.
use ferrum_os.Prelude.{
  ℕ, zero, suc, ◌+◌, ◌≡◌, refl, none, some, [], ◌∷◌, arith, get_elem?, ◌==◌, if◌then◌else◌,
  replicate,
}
use ferrum_os.Fd.{
  Objects, FdTable, PipeInner, new_pipe, pipe_read, pipe_write, get, close_all, alloc_from, fd_max,
}
use ferrum_os.Fd.Counts.{Side, writer, reader, counted, end_of, refs, IsBalanced}
use ferrum_os.Fd.Dup.{alloc_from-uncounted}
use ferrum_os.Fd.CloseAll.{close_all-counts}
use ferrum_os.Procs.{syscall_dup2}
use ferrum_os.Procs.Descriptors.{syscall_dup2-aliases}

-- the read end at 0, the write end at 1
abbrev pub table : FdTable
table = some 0 ∷ some 1 ∷ replicate 14 none

abbrev pub objects : Objects
objects = record { files = pipe_read 0 ∷ pipe_write 0 ∷ []; pipes = new_pipe ∷ [] }

abbrev pub nobody : Side → ℕ → ℕ
nobody side k = 0

table-count :
    (side : Side) (k : ℕ) (p : PipeInner)
    → get_elem? objects.pipes k ≡ some p
    → counted side p ≡ nobody side k + refs side objects.files k table
unfolding refs
table-count writer zero p h = ground arith
table-count reader zero p h = ground arith
table-count writer (suc k) p h = absurd (ground arith)
table-count reader (suc k) p h = absurd (ground arith)

pub table-IsBalanced : IsBalanced nobody objects table
table-IsBalanced = record { count = table-count }

write_end : get table 1 ≡ some 1
unfolding get
write_end = refl

close_all-counts_example :
    ((k : ℕ) → get (close_all table objects 0 fd_max).0 k ≡ none)
    × ((side : Side) (k : ℕ) (p : PipeInner)
        → get_elem? (close_all table objects 0 fd_max).1.pipes k ≡ some p
        → counted side p ≡ nobody side k)
close_all-counts_example = close_all-counts nobody objects table table-IsBalanced refl

syscall_dup2-aliases_example :
    let r : ℕ × FdTable × Objects = syscall_dup2 1 0 table objects in
    (r.0 ≡ 0)
    × ((k : ℕ) → get r.1 k ≡ (if 0 == k then some 1 else get table k))
    × IsBalanced nobody r.2 r.1
syscall_dup2-aliases_example =
    syscall_dup2-aliases nobody objects table table-IsBalanced 1 0 1 refl (omega arith) write_end

new_end : (alloc_from table 1 10).0 ≡ some 10
unfolding alloc_from
new_end = refl

alloc_from-uncounted_example :
    counted writer new_pipe + end_of writer objects.files 0 1
    ≡ nobody writer 0 + refs writer objects.files 0 (alloc_from table 1 10).1
alloc_from-uncounted_example =
    alloc_from-uncounted nobody objects table table-IsBalanced 1 10 10 writer 0 new_pipe new_end
      refl
