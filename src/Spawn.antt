-- ===== src/Spawn.antt =====
-- kernel/src/process.rs: how processes come to be. The first words on a kernel stack, the switch of
-- contexts and the trampolines that enter user mode, which are assembly, and `new_kernel` and
-- `new_user`; Fork has `Process::fork` and the call that makes it.
-- A pointer into the direct map is `kernel_virt_base` above the physical address of its cell.
pub mod Copy
pub mod Fork
pub mod Resume
pub mod Copied
pub mod Unique
use ferrum_os.Prelude.{
  ℕ, zero, suc, ◌+◌, ◌-◌, ◌*◌, ◌^◌, Bool, ◌&&◌, Option, none, some, List, [], ◌∷◌, ltb, leb,
  if◌then◌else◌, u64_mod, page_size,
}
use ferrum_os.Machine.{M, proc_stack, pure, panic, ◌>>=◌, ◌>>◌, write}
pub use ferrum_os.Machine.{kernel_virt_base, direct_mapped}
use ferrum_os.PageOwners.{track}
use ferrum_os.Paging.{on_some, alloc_page, map_4kb}
use ferrum_os.Paging.Tables
use ferrum_os.Fd.{Objects, FdTable, new_stdio}
use ferrum_os.Sched.{Context, Process, ready}
use ferrum_os.Vma.Space.{AddressSpace}

unfoldable pub phys_to_virt : ℕ → M ℕ
phys_to_virt phys = if direct_mapped phys then pure (kernel_virt_base + phys) else panic

unfoldable pub ensure_virt : ℕ → M ℕ
unfolding phys_to_virt
ensure_virt addr = if leb kernel_virt_base addr then pure addr else phys_to_virt addr

abbrev pub zero_context : Context
zero_context = record { rbx = 0; rbp = 0; r12 = 0; r13 = 0; r14 = 0; r15 = 0; rsp = 0 }

-- What the build and the boot fix: the addresses of the trampolines, the selectors of the segments
-- of user mode, the kernel's top table once there is one, and where the kernel image lies.
pub record Kernel : Type 0 where
  pub iretq_entry : ℕ
  pub fork_child_entry : ℕ
  pub user_cs : ℕ
  pub user_ss : ℕ
  pub kernel_pml4 : Option ℕ
  pub image_base : ℕ
  pub image_size : ℕ

-- `write_bytes(start, 0, len)`
abbrev pub zero_range : ℕ → ℕ → M (Unit {0})
zero_range start len m =
    some (tt, record m { mem = λ a. if leb start a && ltb a (start + len) then 0 else m.mem a })

-- words at successive cells
unfoldable pub write_words : ℕ → List ℕ → M (Unit {0})
write_words addr [] = pure tt
write_words addr (w ∷ ws) = do write addr w; write_words (addr + 8) ws

-- The registers of the CPU that `do_switch` saves and loads, and the next instruction. At its start
-- the return address lies where `rsp` points.
pub record Cpu : Type 0 where
  pub saved : Context
  pub rip : ℕ

-- `do_switch`: the context that it saves for the caller, and the CPU after its `ret`.
unfoldable pub do_switch : (ℕ → ℕ) → Context → Context → Context × Cpu
do_switch mem registers next = (
  registers,
  record { saved = record next { rsp = next.rsp + 8 }; rip = mem (next.rsp - kernel_virt_base) },
)

-- What `iretq` at the end of `iretq_trampoline` loads from the stack
pub record UserEntry : Type 0 where
  pub rip : ℕ
  pub cs : ℕ
  pub rflags : ℕ
  pub rsp : ℕ
  pub ss : ℕ

unfoldable pub iretq_trampoline : (ℕ → ℕ) → ℕ → UserEntry
iretq_trampoline mem rsp =
    let cell = rsp - kernel_virt_base in
    record {
      rip = mem (cell + 0);
      cs = mem (cell + 8);
      rflags = mem (cell + 16);
      rsp = mem (cell + 24);
      ss = mem (cell + 32);
    }

-- The stack that enters user mode: cleared, with the words that the trampoline and `iretq` take.
-- `kstack` is the physical address of the lowest cell.
unfoldable pub user_stack : Kernel → ℕ → ℕ → ℕ → ℕ → M (Unit {0})
unfolding write_words
user_stack k kstack kstack_len entry_point rsp = do
  zero_range kstack kstack_len
  write_words (kstack + kstack_len - 48)
      (k.iretq_entry ∷ entry_point ∷ k.user_cs ∷ 0x202 ∷ rsp ∷ k.user_ss ∷ [])

-- The fields that every way to make a process sets alike.
abbrev pub new_process : ℕ → Context → ℕ → AddressSpace → FdTable → Process
new_process pid context kernel_stack_top address_space fd_table = record {
  pid = pid;
  parent_pid = 0;
  state = ready;
  exit_code = 0;
  context = context;
  kernel_stack_alloc = none;
  kernel_stack_top = kernel_stack_top;
  address_space = address_space;
  fd_table = fd_table;
  fs_base = 0;
  brk_start = 0;
  brk_current = 0;
  cwd = 47 ∷ [];
}

abbrev pub no_areas : ℕ → ℕ → AddressSpace
no_areas pml4 pid = record { pml4_phys = pml4; vmas = []; owner_pid = pid }

unfoldable pub new_kernel : ℕ → ℕ → ℕ → ℕ → ℕ → Objects → M (Process × Objects)
unfolding ensure_virt phys_to_virt new_stdio
new_kernel pid entry_point kernel_pml4 stack stack_len o = do
  stack_virt ← phys_to_virt stack
  virt_entry ← ensure_virt entry_point
  zero_range stack stack_len
  write (stack + stack_len - 8) virt_entry
  let stack_top = stack_virt + stack_len
  let context = record zero_context { rsp = stack_top - 8 }
  let stdio = new_stdio o
  pure (new_process pid context stack_top (no_areas kernel_pml4 0) stdio.0, stdio.1)

-- the flags of the pages of a user stack: present, writable, for user mode, not executable
abbrev pub stack_flags : ℕ
stack_flags = 2 ^ 63 + 7

-- `for i in 0..ustack_pages`, with `n` pages left from `page_virt` on
unfoldable pub map_stack : ℕ → ℕ → ℕ → ℕ → M (Option (Unit {0}))
unfolding alloc_page track map_4kb
map_stack zero pml4 page_virt pid = pure (some tt)
map_stack (suc n) pml4 page_virt pid = do
  found ← alloc_page
  on_some found λ phys. do
    track phys 0 proc_stack pid
    mapped ← map_4kb pml4 page_virt phys stack_flags
    on_some mapped λ _. map_stack n pml4 (page_virt + page_size) pid

-- `checked_sub`
abbrev pub checked_sub : ℕ → ℕ → Option ℕ
checked_sub a b = if leb b a then some (a - b) else none

unfoldable pub new_user :
    Kernel → ℕ → ℕ → ℕ → ℕ → ℕ → ℕ → ℕ → Objects → M (Option (Process × Objects))
unfolding Tables.new_user map_stack phys_to_virt user_stack new_stdio
new_user k pid entry_point kernel_pml4 kstack kstack_len ustack_virt ustack_pages o = do
  found ← Tables.new_user kernel_pml4 pid
  on_some found λ pml4. on_some (checked_sub ustack_virt (ustack_pages * page_size)) λ ustack_base.
      do
        stacked ← map_stack ustack_pages pml4 ustack_base pid
        on_some stacked λ _. do
          kstack_virt ← phys_to_virt kstack
          user_stack k kstack kstack_len entry_point ustack_virt
          let kstack_top = kstack_virt + kstack_len
          let context = record zero_context { rsp = kstack_top - 48 }
          let stdio = new_stdio o
          pure (some (new_process pid context kstack_top (no_areas pml4 pid) stdio.0, stdio.1))
