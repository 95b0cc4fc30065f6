-- ===== src/Procs.antt =====
-- The system calls of kernel/src/syscall.rs on processes: fork's slot, exit and wait4, and those
-- on descriptors: close, dup, dup2, fcntl and pipe. The result in `rax` is a number: `-n` is
-- `errno n`.
pub mod Descriptors
pub mod Exit
pub mod Picked
pub mod Wait
use Prim.Native.Nat.{bit_and}
use ferrum_os.Prelude.{
  ℕ, zero, suc, ◌+◌, ◌-◌, ◌*◌, ◌^◌, ◌%◌, Bool, true, false, ◌&&◌, ◌||◌, Option, none, some, List,
  [], ◌∷◌, ltb, leb, ◌==◌, if◌then◌else◌, length, get_elem?, set, u64_mod,
}
use ferrum_os.Machine.{M, Machine, pure, ◌>>=◌, ◌>>◌}
use ferrum_os.Buddy
use ferrum_os.Vma.Space.{AddressSpace, destroy}
use ferrum_os.Fd.{
  FdTable, Objects, OpenFile, fd_max, get, close, close_all, alloc, alloc_entry, alloc_from, put,
  pipe_read, pipe_write, new_pipe, add_pipe,
}
use ferrum_os.Sched.{
  Scheduler, Slots, Process, ready, running, waiting, dead, state_eq, current_mut, slot_at,
  schedule, Switch, with_state,
}

abbrev pub errno : ℕ → ℕ
errno n = u64_mod - n

unfoldable pub syscall_close : ℕ → FdTable → Objects → ℕ × FdTable × Objects
unfolding close
syscall_close fd t o = let c = close t o fd in (if c.0 then 0 else errno 9, c.1, c.2)

abbrev pub new_descriptor : Option ℕ → ℕ
new_descriptor none = errno 24
new_descriptor (some fd) = fd

unfoldable pub syscall_dup : ℕ → FdTable → Objects → ℕ × FdTable × Objects
unfolding get alloc_entry
syscall_dup oldfd t o = elim (get t oldfd) [
  | none ↦ (errno 9, t, o)
  | some entry ↦ let c = alloc_entry t o entry in (new_descriptor c.0, c.1, c.2)
]

unfoldable pub syscall_dup2 : ℕ → ℕ → FdTable → Objects → ℕ × FdTable × Objects
unfolding get close put
syscall_dup2 oldfd newfd t o = if leb fd_max newfd then (errno 9, t, o) else elim (get t oldfd) [
  | none ↦ (errno 9, t, o)
  | some entry ↦
      if oldfd == newfd
      then (newfd, t, o)
      else let c = close t o newfd in let d = put c.1 c.2 newfd entry in (newfd, d.0, d.1)
]

-- commands 0 and 1030 are F_DUPFD and F_DUPFD_CLOEXEC
unfoldable pub syscall_fcntl : ℕ → ℕ → ℕ → FdTable → Objects → ℕ × FdTable × Objects
unfolding get alloc_from
syscall_fcntl fd cmd arg t o =
    if cmd == 0 || cmd == 1030
    then elim (get t fd) [
      | none ↦ (errno 9, t, o)
      | some entry ↦ let c = alloc_from t entry arg in (new_descriptor c.0, c.1, o)
    ]
    else (0, t, o)

-- `syscall_pipe`, with the descriptors that it writes to the caller's memory
abbrev pub pipe_writer :
    ℕ → ℕ → Option ℕ × FdTable × Objects → (ℕ × Option (ℕ × ℕ)) × FdTable × Objects
pipe_writer rfd p (none, t, o) = let c = close t o rfd in ((errno 24, none), c.1, c.2)
pipe_writer rfd p (some wfd, t, o) = ((0, some (rfd, wfd)), t, o)

abbrev pub pipe_reader : ℕ → Option ℕ × FdTable × Objects → (ℕ × Option (ℕ × ℕ)) × FdTable × Objects
pipe_reader p (none, t, o) = ((errno 24, none), t, o)
pipe_reader p (some rfd, t, o) = pipe_writer rfd p (alloc t o (pipe_write p))

unfoldable pub syscall_pipe : FdTable → Objects → (ℕ × Option (ℕ × ℕ)) × FdTable × Objects
unfolding alloc close
syscall_pipe t o =
    let p = length o.pipes in pipe_reader p (alloc t (add_pipe o new_pipe) (pipe_read p))

-- A handler acts on the descriptor table of the current process, if there is one.
unfoldable pub on_current :
    (FdTable → Objects → ℕ × FdTable × Objects) → Scheduler → Objects → ℕ × Scheduler × Objects
unfolding current_mut
on_current handler s o = elim (current_mut s) [
  | none ↦ (errno 1, s, o)
  | some p ↦
      let c = handler p.fd_table o in
      let p' = record p { fd_table = c.1 } in
      (c.0, record s { processes = set s.processes s.current_idx (some p') }, c.2)
]

-- The first process that waits with that number is made Ready.
unfoldable pub wake : ℕ → Slots → Slots
wake parent [] = []
wake parent (none ∷ ps) = none ∷ wake parent ps
wake parent (some p ∷ ps) =
    if p.pid == parent && state_eq p.state waiting
    then some (with_state ready p) ∷ ps
    else some p ∷ wake parent ps

-- a process that has ended, with its exit code and its closed descriptors
abbrev pub ended : ℕ → FdTable → Process → Process
ended code t p = record p { exit_code = code; state = dead; fd_table = t }

-- `end_current`: the state changes of `syscall_exit`, up to its call of `schedule`
abbrev pub end_process : ℕ → Scheduler → Objects → Option Process → Scheduler × Objects
end_process code s o none = (s, o)
end_process code s o (some p) =
    let c = close_all p.fd_table o 0 fd_max in
    let ps = set s.processes s.current_idx (some (ended code c.0 p)) in
    (record s { processes = wake p.parent_pid ps }, c.1)

unfoldable pub end_current : ℕ → Scheduler → Objects → Scheduler × Objects
unfolding current_mut close_all wake
end_current code s o = end_process code s o (current_mut s)

unfoldable pub syscall_exit : ℕ → Scheduler → Objects → (Switch × Scheduler) × Objects
unfolding end_current schedule
syscall_exit rdi s o = let e = end_current (rdi % 2 ^ 32) s o in (schedule e.0, e.1)

-- The process argument of wait4 as an `i32`: none for a number that is not positive.
abbrev pub target_of : ℕ → Option ℕ
target_of rdi = let t = rdi % 2 ^ 32 in if t == 0 || leb (2 ^ 31) t then none else some t

abbrev pub is_target : Option ℕ → ℕ → Bool
is_target none pid = true
is_target (some t) pid = pid == t

abbrev pub is_child : ℕ → Option ℕ → Option Process → Bool
is_child caller target none = false
is_child caller target (some p) = p.parent_pid == caller && is_target target p.pid

abbrev pub is_zombie : ℕ → Option ℕ → Option Process → Bool
is_zombie caller target none = false
is_zombie caller target (some p) =
    p.parent_pid == caller && state_eq p.state dead && is_target target p.pid

-- the index of the first slot that passes a test, counted from `i`
unfoldable pub find_slot : (Option Process → Bool) → ℕ → Slots → Option ℕ
find_slot test i [] = none
find_slot test i (slot ∷ ps) =
    let rest = find_slot test (i + 1) ps in if test slot then some i else rest

unfoldable pub any_slot : (Option Process → Bool) → Slots → Bool
any_slot test [] = false
any_slot test (slot ∷ ps) = if test slot then true else any_slot test ps

-- what one round of the loop of wait4 comes to
pub data WaitRound : Type 0 where
  -- the process that is reaped, with the scheduler without it
  reaped : Process → Scheduler → WaitRound
  returned : ℕ → WaitRound
  -- the caller waits, and is to call `schedule`
  blocked_in : Scheduler → WaitRound

abbrev pub reap_at : Scheduler → ℕ → Option Process → WaitRound
reap_at s i none = returned 0
reap_at s i (some zombie) = reaped zombie (record s { processes = set s.processes i none })

abbrev pub wait_slot : Option Process → Option Process
wait_slot none = none
wait_slot (some p) = some (with_state waiting p)

-- `set_waiting`: the current process waits.
unfoldable pub start_waiting : Scheduler → Scheduler
start_waiting s = record s {
  processes = set s.processes s.current_idx (wait_slot (slot_at s.processes s.current_idx));
}

abbrev pub no_zombie : ℕ → Option ℕ → Bool → Scheduler → WaitRound
no_zombie caller target no_hang s =
    if any_slot (is_child caller target) s.processes
    then (if no_hang then returned 0 else blocked_in (start_waiting s))
    else returned (errno 10)

abbrev pub zombie_found : ℕ → Option ℕ → Bool → Scheduler → Option ℕ → WaitRound
zombie_found caller target no_hang s (some i) = reap_at s i (slot_at s.processes i)
zombie_found caller target no_hang s none = no_zombie caller target no_hang s

unfoldable pub wait_round : ℕ → Option ℕ → Bool → Scheduler → WaitRound
unfolding find_slot any_slot start_waiting
wait_round caller target no_hang s =
    zombie_found caller target no_hang s (find_slot (is_zombie caller target) 0 s.processes)

-- The pages of a reaped process are freed: its address space and its kernel stack.
abbrev pub free_stack : Option (ℕ × ℕ) → M (Unit {0})
free_stack none = pure tt
free_stack (some (phys, order)) = Buddy.free phys order

unfoldable pub free_zombie : Process → M (Unit {0})
unfolding destroy Buddy.free
free_zombie zombie = do s ← destroy zombie.address_space; free_stack zombie.kernel_stack_alloc

-- the status word that wait4 writes if the caller gave a pointer
abbrev pub status_of : Process → ℕ
status_of zombie = bit_and zombie.exit_code 255 * 2 ^ 8
