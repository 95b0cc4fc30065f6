-- ===== src/Sched.antt =====
-- The scheduler of kernel/src/process.rs: the process table, the round-robin choice of the next
-- process and the switch that `schedule` makes. Saved registers are data; the switch itself,
-- `do_switch`, is assembly, and `schedule` says which saved context it resumes.
pub mod Next
pub mod Switching
pub mod Turns
pub mod Pids
use ferrum_os.Prelude.{
  ℕ, zero, suc, ◌+◌, ◌%◌, max, Bool, true, false, ◌&&◌, Option, none, some, List, [], ◌∷◌, ltb,
  ◌==◌, if◌then◌else◌, length, get_elem?, set,
}
use ferrum_os.Vma.Space.{AddressSpace}
use ferrum_os.Fd.{FdTable}

pub record Context : Type 0 where
  pub rbx : ℕ
  pub rbp : ℕ
  pub r12 : ℕ
  pub r13 : ℕ
  pub r14 : ℕ
  pub r15 : ℕ
  pub rsp : ℕ

pub data ProcessState : Type 0 where
  ready running waiting blocked dead : ProcessState

abbrev pub state_eq : ProcessState → ProcessState → Bool
state_eq ready ready = true
state_eq running running = true
state_eq waiting waiting = true
state_eq blocked blocked = true
state_eq dead dead = true
state_eq _ _ = false

pub record Process : Type 0 where
  pub pid : ℕ
  pub parent_pid : ℕ
  pub state : ProcessState
  pub exit_code : ℕ
  pub context : Context
  pub kernel_stack_alloc : Option (ℕ × ℕ)
  pub kernel_stack_top : ℕ
  pub address_space : AddressSpace
  pub fd_table : FdTable
  pub fs_base : ℕ
  pub brk_start : ℕ
  pub brk_current : ℕ
  pub cwd : List ℕ

abbrev pub Slots : Type 0
Slots = List (Option Process)

pub record Scheduler : Type 0 where
  pub processes : Slots
  pub current_idx : ℕ
  pub initialized : Bool

abbrev pub new_scheduler : Scheduler
new_scheduler = record { processes = []; current_idx = 0; initialized = false }

-- The first free slot takes the process, or a new slot at the end does.
unfoldable pub place : Slots → Process → Slots
place [] p = some p ∷ []
place (none ∷ ps) p = some p ∷ ps
place (some q ∷ ps) p = some q ∷ place ps p

abbrev pub add_process : Scheduler → Process → Scheduler
add_process s p = record s { processes = place s.processes p }

abbrev pub slot_in : ProcessState → Option Process → Bool
slot_in st none = false
slot_in st (some p) = state_eq p.state st

abbrev pub flatten : Option (Option Process) → Option Process
flatten none = none
flatten (some slot) = slot

abbrev pub slot_at : Slots → ℕ → Option Process
slot_at ps i = flatten (get_elem? ps i)

abbrev pub is_in : ProcessState → Slots → ℕ → Bool
is_in st ps i = slot_in st (slot_at ps i)

-- `(0..len).map(|i| (start + i) % len).find(…)`, at `i` with `n` indices left
unfoldable pub find_ready : Slots → ℕ → ℕ → ℕ → Option ℕ
find_ready ps start i zero = none
find_ready ps start i (suc n) =
    let j = (start + i) % length ps in
    let rest = find_ready ps start (i + 1) n in if is_in ready ps j then some j else rest

abbrev pub start_of : Scheduler → ℕ
start_of s = if s.initialized then (s.current_idx + 1) % length s.processes else 0

-- `next_process`: the index that it chooses, and the scheduler after the choice
unfoldable pub next_process : Scheduler → Option (ℕ × Scheduler)
unfolding find_ready
next_process s = elim (find_ready s.processes (start_of s) 0 (length s.processes)) [
  | none ↦ none
  | some i ↦ some (i, record s { current_idx = i; initialized = true })
]

-- `current_mut`
unfoldable pub current_mut : Scheduler → Option Process
current_mut s = if s.initialized then slot_at s.processes s.current_idx else none

unfoldable pub current : Scheduler → Option Process
current s = slot_at s.processes s.current_idx

unfoldable pub max_pid : Slots → ℕ
max_pid [] = 0
max_pid (none ∷ ps) = max_pid ps
max_pid (some p ∷ ps) = max p.pid (max_pid ps)

unfoldable pub alloc_pid : Scheduler → ℕ
unfolding max_pid
alloc_pid s = max_pid s.processes + 1

abbrev pub with_state : ProcessState → Process → Process
with_state st p = record p { state = st }

unfoldable pub any_ready : Slots → Bool
any_ready [] = false
any_ready (slot ∷ ps) = if slot_in ready slot then true else any_ready ps

-- What a call of `schedule` does with the CPU. To resume a process is to load its saved context, its
-- page table, its kernel stack top for interrupts and system calls, and its `fs_base`; to resume the
-- idle context is to load that and the kernel's page table, and to switch preemption off.
pub data Switch : Type 0 where
  -- go on with the caller
  stay : Switch
  -- resume the process in that slot
  resume : ℕ → Switch
  -- resume the context that called `schedule` first
  resume_idle : Switch

abbrev pub demote_slot : Option Process → Option Process
demote_slot none = none
demote_slot (some p) = some (if state_eq p.state running then with_state ready p else p)

-- A process that is preempted becomes Ready.
unfoldable pub demote : Scheduler → Scheduler
demote s =
    if s.initialized
    then record s {
      processes = set s.processes s.current_idx (demote_slot (slot_at s.processes s.current_idx));
    }
    else s

abbrev pub promote_slot : Option Process → Option Process
promote_slot none = none
promote_slot (some p) = some (with_state running p)

unfoldable pub promote : Scheduler → ℕ → Scheduler
promote s i = record s { processes = set s.processes i (promote_slot (slot_at s.processes i)) }

unfoldable pub current_dead : Scheduler → Bool
current_dead s = s.initialized && is_in dead s.processes s.current_idx

abbrev pub resumed : Scheduler → Option (ℕ × Scheduler) → Switch × Scheduler
resumed s none = (stay, s)
resumed s (some (i, s')) = (resume i, promote s' i)

unfoldable pub schedule : Scheduler → Switch × Scheduler
unfolding any_ready demote promote current_dead next_process
schedule s =
    let has_ready = any_ready s.processes in
    let s' = demote s in
    if has_ready
    then resumed s' (next_process s')
    else (if current_dead s' then resume_idle else stay, s')
