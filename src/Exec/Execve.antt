-- ===== src/Exec/Execve.antt =====
-- `syscall_execve` of kernel/src/syscall.rs: the program, its stack, its thread block and registers.
use ferrum_os.Prelude.{
  ℕ, zero, suc, ◌+◌, ◌-◌, ◌*◌, true, false, max, Option, none, some, List, [], ◌∷◌, if◌then◌else◌,
  Result, ok, err, page_size, page_up, add64, le_word, take, get_elem?,
}
use ferrum_os.Machine.{M, pure, ◌>>=◌, ◌>>◌, write, zero_page}
use ferrum_os.Paging.{alloc_page, map_4kb}
use ferrum_os.Vma.{Vma, VmaFlags, anonymous, stack, kind_eq, add_vma}
use ferrum_os.Vma.Area.{new_vma}
use ferrum_os.Vma.Space.{AddressSpace, clear_user}
use ferrum_os.Sched.{Process, Scheduler, current, current_mut}
use ferrum_os.Procs.{errno}
use ferrum_os.Paths.{Str, resolve_path}
use ferrum_os.Ramfs.{Ramfs, RamfsNode, open_node}
use ferrum_os.Io.{read_user_cstr}
use ferrum_os.Elf.{ehdr_of}
use ferrum_os.Elf.Segments.{load_elf}
use ferrum_os.Spawn.{stack_flags}
use ferrum_os.Spawn.Copy.{expect}
use ferrum_os.Spawn.Fork.{SyscallFrame}
use ferrum_os.Exec.{read_user_cstr_array}
use ferrum_os.Exec.Stack.{Start, at_random}
use ferrum_os.Exec.Paged.{build_stack}

abbrev pub read_write : VmaFlags
read_write = record { read = true; write = true; exec = false }

-- `add_vma(…).ok()`: on an error the list stays.
abbrev pub added_or : List Vma → Result (List Vma) → List Vma
added_or vmas (ok t) = t
added_or vmas (err e) = vmas

abbrev pub with_vma : AddressSpace → Vma → AddressSpace
with_vma space vma = record space { vmas = added_or space.vmas (add_vma space.vmas vma) }

abbrev pub tcb_page : ℕ
tcb_page = 0x7fff_1000

abbrev pub tcb_fs_base : ℕ
tcb_fs_base = tcb_page + 0x20

abbrev pub tcb_area : Vma
tcb_area = new_vma tcb_page (tcb_page + 0x1000) read_write anonymous

-- the first eight random bytes as a number
abbrev pub canary_of : Start → ℕ
canary_of s = le_word (take 8 (at_random s.tsc1 s.tsc2))

-- the end of the program's areas, which is where the heap starts
unfoldable pub highest_end : List Vma → ℕ
highest_end [] = 0
highest_end (v ∷ vs) = if kind_eq v.kind stack then highest_end vs else max v.end (highest_end vs)

abbrev pub with_break : Process → Process
with_break p =
    let start = page_up (highest_end p.address_space.vmas) in
    record p { brk_start = start; brk_current = start }

-- The 128 pages of execve's stack: a missing page is a panic, and no owner is recorded.
unfoldable pub map_ustack : ℕ → ℕ → ℕ → M (Unit {0})
unfolding alloc_page map_4kb
map_ustack zero pml4 addr = pure tt
map_ustack (suc n) pml4 addr = do
  found ← alloc_page
  phys ← expect found
  mapped ← map_4kb pml4 addr phys stack_flags
  _ ← expect mapped
  map_ustack n pml4 (addr + page_size)

abbrev pub ustack_virt : ℕ
ustack_virt = 0x7fff_0000

abbrev pub ustack_base : ℕ
ustack_base = ustack_virt - 128 * 0x1000

-- The thread block of execve: cleared, with `fs_base` at its start and at offset 0x10, and the canary at
-- offset 0x28. Without a page for it the program starts without one.
abbrev pub exec_tcb : Process → ℕ → Option ℕ → M Process
exec_tcb p canary none = pure p
exec_tcb p canary (some phys) = do
  zero_page phys
  write (phys + 0x20) tcb_fs_base
  write (phys + 0x30) tcb_fs_base
  write (phys + 0x48) canary
  mapped ← map_4kb p.address_space.pml4_phys tcb_page phys stack_flags
  _ ← expect mapped
  pure (record p { address_space = with_vma p.address_space tcb_area; fs_base = tcb_fs_base })

-- The registers with which the program starts
abbrev pub entry_frame : ℕ → ℕ → SyscallFrame
entry_frame entry rsp = record {
  r15 = 0;
  r14 = 0;
  r13 = 0;
  r12 = 0;
  rbp = 0;
  rbx = 0;
  r9 = 0;
  r8 = 0;
  r10 = 0;
  rdx = 0;
  rsi = 0;
  rdi = 0;
  rax = 0;
  user_rsp = rsp;
  r11 = 0x202;
  rcx = entry;
}

-- How execve ends: with an error, and the process as it then is if there is one, or in a new program.
pub data ExecEnd : Type 0 where
  failed : ℕ → Option Process → ExecEnd
  started : Process → SyscallFrame → ExecEnd

-- what the caller passes on: the arguments, the environment and the two time stamps
pub record Passing : Type 0 where
  pub argv : List Str
  pub envp : List Str
  pub tsc1 : ℕ
  pub tsc2 : ℕ

-- Where the program headers lie in memory, as execve takes it: behind 0x400000
abbrev pub start_with : ℕ → Passing → List ℕ → ℕ → Start
start_with top a elf_data entry = record {
  ustack_top = top;
  argv = a.argv;
  envp = a.envp;
  elf_entry = entry;
  elf_phdr_vaddr = add64 0x400000 (ehdr_of elf_data).e_phoff;
  elf_phent = (ehdr_of elf_data).e_phentsize;
  elf_phnum = (ehdr_of elf_data).e_phnum;
  tsc1 = a.tsc1;
  tsc2 = a.tsc2;
}

-- what follows a load: heap, stack, thread block and registers
abbrev pub exec_loaded : Process → Passing → List ℕ → Result ℕ × AddressSpace → M ExecEnd
exec_loaded p a elf_data (err e, space) =
    pure (failed (errno 8) (some (record p { address_space = space })))
exec_loaded p a elf_data (ok entry, space) = do
  let start = start_with ustack_virt a elf_data entry
  let p1 = with_break (record p { address_space = space })
  map_ustack 128 space.pml4_phys ustack_base
  let ustack = new_vma ustack_base (ustack_virt + 0x1000) read_write stack
  let p2 = record p1 { address_space = with_vma p1.address_space ustack }
  new_rsp ← build_stack space.pml4_phys start
  tcb ← alloc_page
  p3 ← exec_tcb p2 (canary_of start) tcb
  pure (started p3 (entry_frame entry new_rsp))

abbrev pub exec_process : Passing → List ℕ → Option Process → M ExecEnd
exec_process a elf_data none = pure (failed (errno 1) none)
exec_process a elf_data (some p) = do
  cleared ← clear_user p.address_space
  loaded ← load_elf cleared elf_data
  exec_loaded p a elf_data loaded

-- `read_all` of a handle on a node
abbrev pub read_all : Option RamfsNode → List ℕ
read_all none = []
read_all (some node) = node.bytes

-- the calls on the root file system: `open`, and the bytes of the node
abbrev pub exec_node : Ramfs → Passing → Scheduler → Option ℕ → M ExecEnd
exec_node fs a sched none = pure (failed (errno 2) none)
exec_node fs a sched (some n) = exec_process a (read_all (get_elem? fs.nodes n)) (current_mut sched)

abbrev pub cwd_of : Option Process → Str
cwd_of none = 47 ∷ []
cwd_of (some p) = p.cwd

-- an empty environment becomes `PATH=/`
abbrev pub or_path : List Str → List Str
or_path [] = (80 ∷ 65 ∷ 84 ∷ 72 ∷ 61 ∷ 47 ∷ []) ∷ []
or_path (s ∷ ss) = s ∷ ss

-- what execve passes on, read from the caller's memory
abbrev pub passing : (ℕ → ℕ) → ℕ → ℕ → ℕ → ℕ → Passing
passing user argv_ptr envp_ptr tsc1 tsc2 = record {
  argv = read_user_cstr_array user argv_ptr 32;
  envp = or_path (read_user_cstr_array user envp_ptr 64);
  tsc1 = tsc1;
  tsc2 = tsc2;
}

abbrev pub exec_path : Ramfs → Passing → Scheduler → Option Str → M ExecEnd
exec_path fs a sched none = pure (failed (errno 14) none)
exec_path fs a sched (some raw_path) =
    exec_node fs a sched (open_node fs (resolve_path (cwd_of (current sched)) raw_path))

-- A failure leaves the process table as it was, except for the process that it names. `rdi`, `rsi` and
-- `rdx` are the caller's registers.
unfoldable pub syscall_execve : Ramfs → Scheduler → (ℕ → ℕ) → ℕ → ℕ → ℕ → ℕ → ℕ → M ExecEnd
unfolding read_user_cstr read_user_cstr_array resolve_path open_node current current_mut clear_user
    load_elf highest_end map_ustack build_stack
syscall_execve fs sched user rdi rsi rdx tsc1 tsc2 =
    exec_path fs (passing user rsi rdx tsc1 tsc2) sched (read_user_cstr user rdi 256)
