-- ===== src/Faults.antt =====
-- Processes that the kernel ends: `page_fault_inner` of kernel/src/interrupts.rs and the tgkill branch
-- of kernel/src/syscall.rs. Unlike exit, neither wakes a parent that waits.
use ferrum_os.Prelude.{
  ℕ, Bool, false, Option, none, some, leb, ◌==◌, if◌then◌else◌, set, Result, ok, err,
}
use ferrum_os.Machine.{Machine}
use ferrum_os.Vma.Space.{AddressSpace, handle_page_fault}
use ferrum_os.Fd.{Objects, fd_max, close_all}
use ferrum_os.Sched.{Scheduler, Process, dead, state_eq, current_mut, slot_at, schedule, Switch}
use ferrum_os.Procs.{find_slot}

-- The process is marked Dead, and its descriptors are closed; it stands in slot `i`.
abbrev pub kill_at : ℕ → Scheduler → Objects → Option Process → Scheduler × Objects
kill_at i s o none = (s, o)
kill_at i s o (some p) =
    let c = close_all p.fd_table o 0 fd_max in
    let p' = record p { state = dead; fd_table = c.0 } in
    (record s { processes = set s.processes i (some p') }, c.1)

-- How the handler ends: it returns to the program that faulted, or it has ended the current process
-- and called `schedule`, or it panics.
pub data FaultEnd : Type 0 where
  resumed : Machine → FaultEnd
  killed : Switch × Scheduler → Objects → Machine → FaultEnd
  panicked : FaultEnd

abbrev pub kill_current : Scheduler → Objects → Machine → Option Process → FaultEnd
kill_current s o m none = panicked
kill_current s o m (some p) =
    let e = kill_at s.current_idx s o (some p) in
    if state_eq p.state dead then panicked else killed (schedule e.0) e.1 m

abbrev pub fault_end : Scheduler → Objects → Option (Result (Unit {0}) × Machine) → FaultEnd
fault_end s o none = panicked
fault_end s o (some (ok u, m)) = resumed m
fault_end s o (some (err e, m)) = kill_current s o m (current_mut s)

-- Without a process that is alive, the kernel's own address space serves the fault.
abbrev pub kernel_fault : ℕ → Option AddressSpace → Scheduler → Objects → Machine → FaultEnd
kernel_fault fault_addr none s o m = kill_current s o m (current_mut s)
kernel_fault fault_addr (some space) s o m = fault_end s o (handle_page_fault space fault_addr m)

abbrev pub fault_in :
    ℕ → Option AddressSpace → Scheduler → Objects → Machine → Option Process → FaultEnd
fault_in fault_addr kernel s o m none = kernel_fault fault_addr kernel s o m
fault_in fault_addr kernel s o m (some p) =
    if state_eq p.state dead
    then kernel_fault fault_addr kernel s o m
    else fault_end s o (handle_page_fault p.address_space fault_addr m)

unfoldable pub page_fault : ℕ → Option AddressSpace → Scheduler → Objects → Machine → FaultEnd
unfolding current_mut schedule close_all handle_page_fault
page_fault fault_addr kernel s o m =
    if leb 0xffff800000000000 fault_addr
    then panicked
    else fault_in fault_addr kernel s o m (current_mut s)

abbrev pub has_pid : ℕ → Option Process → Bool
has_pid tgid none = false
has_pid tgid (some p) = p.pid == tgid

abbrev pub kill_found : Scheduler → Objects → Option ℕ → Scheduler × Objects
kill_found s o none = (s, o)
kill_found s o (some i) = kill_at i s o (slot_at s.processes i)

abbrev pub number_of : Option Process → ℕ
number_of none = 0
number_of (some p) = p.pid

-- It returns 0, or it has ended the current process and called `schedule`.
pub data KillEnd : Type 0 where
  answered : ℕ → Scheduler → Objects → KillEnd
  switched : Switch × Scheduler → Objects → KillEnd

unfoldable pub syscall_tgkill : ℕ → Scheduler → Objects → KillEnd
unfolding find_slot current_mut close_all schedule
syscall_tgkill tgid s o =
    let e = kill_found s o (find_slot (has_pid tgid) 0 s.processes) in
    if number_of (current_mut e.0) == tgid then switched (schedule e.0) e.1 else answered 0 e.0 e.1
