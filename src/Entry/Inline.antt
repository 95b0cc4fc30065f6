-- ===== src/Entry/Inline.antt =====
-- The branches of `syscall_handler` of kernel/src/syscall.rs that are not calls of a handler, and
-- `syscall_futex`; tgkill is in Faults and time with the calls that report. With them stands
-- `preempt_yield` of kernel/src/interrupts.rs, which the timer calls.
use ferrum_os.Prelude.{
  ℕ, ◌/◌, ◌%◌, ◌^◌, Bool, true, false, Option, none, some, ◌++◌, ◌==◌, if◌then◌else◌, le_bytes,
}
use ferrum_os.Machine.{M, pure}
use ferrum_os.Fd.{Objects}
use ferrum_os.Sched.{Process, Scheduler, Switch, stay, current_mut, schedule}
use ferrum_os.Procs.{errno}
use ferrum_os.Io.{System, Answer, returns, write_to_user}
use ferrum_os.Spawn.{Kernel}
use ferrum_os.Spawn.Fork.{SyscallFrame, syscall_fork}

abbrev pub pid_or : ℕ → Option Process → ℕ
pid_or other none = other
pid_or other (some p) = p.pid

abbrev pub parent_pid_or : ℕ → Option Process → ℕ
parent_pid_or other none = other
parent_pid_or other (some p) = p.parent_pid

unfoldable pub getpid : Scheduler → ℕ
unfolding current_mut
getpid s = pid_or 0 (current_mut s)

unfoldable pub getppid : Scheduler → ℕ
unfolding current_mut
getppid s = parent_pid_or 0 (current_mut s)

-- without a current process the answer is 1
unfoldable pub gettid : Scheduler → ℕ
unfolding current_mut
gettid s = pid_or 1 (current_mut s)

-- `CLONE_THREAD` is refused; any other clone is a fork.
unfoldable pub syscall_clone :
    Kernel → Scheduler → SyscallFrame → Objects → M (ℕ × Scheduler × Objects)
unfolding syscall_fork
syscall_clone k s frame o =
    if frame.rdi / 2 ^ 16 % 2 == 1 then pure (errno 38, s, o) else syscall_fork k s frame o

-- The result that the caller gets when it is resumed, and the switch.
unfoldable pub sched_yield : Scheduler → ℕ × Switch × Scheduler
unfolding schedule
sched_yield s = let r = schedule s in (0, r.0, r.1)

-- `op` is the lowest seven bits of `rsi`: 0 is FUTEX_WAIT, which gives way once, and 1 FUTEX_WAKE.
unfoldable pub syscall_futex : ℕ → Scheduler → ℕ × Switch × Scheduler
unfolding schedule
syscall_futex rsi s =
    let op = rsi % 128 in
    let r = schedule s in
    if op == 0 then (errno 11, r.0, r.1) else if op == 1 then (0, stay, s) else (errno 38, stay, s)

-- the answer is a resolution of ten milliseconds, for a pointer that is not null
unfoldable pub clock_getres : ℕ → System → Answer
unfolding write_to_user le_bytes
clock_getres tp s =
    if tp == 0
    then returns 0 s
    else returns 0 (write_to_user s tp (le_bytes 8 0 ++ le_bytes 8 10000000)).1

-- `PREEMPT_SCHED_PTR` is set while there are processes to run.
unfoldable pub preempt_yield : Bool → Scheduler → Switch × Scheduler
unfolding schedule
preempt_yield true s = schedule s
preempt_yield false s = (stay, s)
