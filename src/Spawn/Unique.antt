-- ===== src/Spawn/Unique.antt =====
-- `syscall_fork` of kernel/src/syscall.rs: the process table after it.
use ferrum_os.Prelude.{ℕ, ◌≡◌, ◌⊎◌, refl, Option, none, some, inl, inr}
use ferrum_os.Machine.{Machine, Unless, Unless-bind}
use ferrum_os.Vma.Cover.{IsSorted}
use ferrum_os.Fd.{Objects}
use ferrum_os.Fd.Counts.{Side, IsBalanced}
use ferrum_os.Sched.{Process, Scheduler, alloc_pid, slot_at}
use ferrum_os.Sched.Pids.{UniquePids, add_process-UniquePids}
use ferrum_os.Procs.{errno}
use ferrum_os.Spawn.{Kernel}
use ferrum_os.Spawn.Fork.{SyscallFrame, fork, forked, syscall_fork}
use ferrum_os.Spawn.Copied.{Forked, fork-Forked}

-- The result, the scheduler and the objects after the call: ENOMEM and no change, or the number of the
-- new process; in both cases the numbers differ.
abbrev pub ForkEnd : Scheduler → Objects → ℕ × Scheduler × Objects → Machine → Type 0
ForkEnd s o (n, s', o') m =
    UniquePids s' × (((n ≡ errno 12) × (s' ≡ s) × (o' ≡ o)) ⊎ (n ≡ alloc_pid s))

forked-ForkEnd :
    (s : Scheduler) (o : Objects) (others : Side → ℕ → ℕ) (parent : Process)
    (r : Option (Process × Objects)) (m : Machine)
    → UniquePids s
    → Forked others o parent (alloc_pid s) r m
    → ForkEnd s o (forked s o r) m
forked-ForkEnd s o others parent none m unique f = (unique, inl (refl, refl, refl))
forked-ForkEnd s o others parent (some (child, o')) m unique f =
    (add_process-UniquePids s child f.0 unique, inr f.0)

-- If the current slot holds a process with sorted areas and right pipe counts and no two slots
-- hold processes of the same number, then syscall_fork, unless it panics, returns ENOMEM and
-- leaves the process table and the objects as they were, or returns the number from alloc_pid; and
-- still no two slots hold processes of the same number.
pub syscall_fork-ForkEnd :
    (k : Kernel) (s : Scheduler) (parent : Process) (lo : ℕ) (frame : SyscallFrame) (o : Objects)
    (others : Side → ℕ → ℕ) (m : Machine)
    → slot_at s.processes s.current_idx ≡ some parent
    → UniquePids s
    → IsBalanced others o parent.fd_table
    → IsSorted lo parent.address_space.vmas
    → Unless (ForkEnd s o) (syscall_fork k s frame o m)
unfolding syscall_fork
syscall_fork-ForkEnd k s parent lo frame o others m at unique balanced sorted = rw at (
    Unless-bind (Forked others o parent (alloc_pid s)) (ForkEnd s o)
      (fork k parent (alloc_pid s) frame o m) (λ r m'. some (forked s o r, m'))
      (fork-Forked k parent (alloc_pid s) lo o others balanced sorted frame m)
      (λ r m'. forked-ForkEnd s o others parent r m' unique))
