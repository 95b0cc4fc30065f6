-- ===== src/Memory.antt =====
-- The system calls of kernel/src/syscall.rs on the memory of the current process: mmap, munmap and
-- brk. Each handler acts on the current process and the machine; without a current process it
-- returns before it does anything, which `on_process` writes out.
pub mod Brk
use ferrum_os.Prelude.{
  ℕ, ◌+◌, ◌/◌, ◌%◌, ◌^◌, Bool, true, false, not, ◌&&◌, ◌||◌, Option, none, some, List, leb, ◌==◌,
  if◌then◌else◌, page_up, Result, ok, err, Fault, set,
}
use ferrum_os.Machine.{M, Machine, pure, ◌>>=◌, and_then}
use ferrum_os.Vma.{Vma, VmaFlags, anonymous}
use ferrum_os.Vma.Area.{mmap, extend_heap}
use ferrum_os.Vma.Space.{AddressSpace, munmap, mmap_fixed}
use ferrum_os.Sched.{Scheduler, Process, current_mut}
use ferrum_os.Procs.{errno}

-- what a handler does for the current process, and its result without one
unfoldable pub on_process : ℕ → (Process → M (ℕ × Process)) → Scheduler → M (ℕ × Scheduler)
unfolding current_mut
on_process without handler s = elim (current_mut s) [
  | none ↦ pure (without, s)
  | some p ↦ do
    r ← handler p
    pure (r.0, record s { processes = set s.processes s.current_idx (some r.1) })
]

abbrev pub with_areas : Process → List Vma → Process
with_areas p vmas =
    let space = p.address_space in record p { address_space = record space { vmas = vmas } }

-- the answer of `extend_heap`, taken over by `syscall_brk`
abbrev pub brk_result : Process → ℕ → Option (Option Fault × List Vma) → Option (ℕ × Process)
brk_result p aligned none = none
brk_result p aligned (some (some e, vmas)) = some (p.brk_current, with_areas p vmas)
brk_result p aligned (some (none, vmas)) =
    let p' = with_areas p vmas in some (aligned, record p' { brk_current = aligned })

-- `syscall_brk` for the current process; none is a panic
unfoldable pub syscall_brk : ℕ → Process → Option (ℕ × Process)
unfolding extend_heap
syscall_brk requested p =
    if requested == 0 || leb requested p.brk_current
    then some (p.brk_current, p)
    else brk_result p (page_up requested)
        (extend_heap p.address_space.vmas p.brk_start (page_up requested))

abbrev pub prot_flags : ℕ → VmaFlags
prot_flags prot = record {
  read = prot % 2 == 1;
  write = prot / 2 % 2 == 1;
  exec = prot / 4 % 2 == 1;
}

-- the bit MAP_FIXED, 0x10
abbrev pub is_map_fixed : ℕ → Bool
is_map_fixed flags = flags / 16 % 2 == 1

abbrev pub mmap_answer : Process → Result (ℕ × List Vma) → ℕ × Process
mmap_answer p (ok (mapped, vmas)) = (mapped, with_areas p vmas)
mmap_answer p (err e) = (errno 12, p)

abbrev pub fixed_answer : Process → Result ℕ × AddressSpace → ℕ × Process
fixed_answer p (ok mapped, space) = (mapped, record p { address_space = space })
fixed_answer p (err e, space) = (errno 12, record p { address_space = space })

unfoldable pub syscall_mmap : ℕ → ℕ → ℕ → ℕ → Process → M (ℕ × Process)
unfolding mmap mmap_fixed
syscall_mmap addr len prot flags p m =
    if not (addr == 0) && is_map_fixed flags
    then and_then (mmap_fixed p.address_space addr len (prot_flags prot) anonymous m)
        (λ r. pure (fixed_answer p r))
    else pure (mmap_answer p (mmap p.address_space.vmas 0 len (prot_flags prot) anonymous)) m

-- The result of the unmapping is ignored.
unfoldable pub syscall_munmap : ℕ → ℕ → Process → M (ℕ × Process)
unfolding munmap
syscall_munmap addr len p = do
  r ← munmap p.address_space addr len
  pure (0, record p { address_space = r.1 })
