-- ===== src/Spawn/Fork.antt =====
-- `Process::fork` of kernel/src/process.rs and `syscall_fork` of kernel/src/syscall.rs.
use ferrum_os.Prelude.{
  ℕ, ◌+◌, ◌-◌, ◌*◌, Option, none, some, List, [], ◌∷◌, leb, u64_mod, if◌then◌else◌,
}
use ferrum_os.Machine.{M, proc_stack, pure, panic, ◌>>=◌, ◌>>◌, write}
use ferrum_os.Buddy
use ferrum_os.PageOwners.{track}
use ferrum_os.Paging.Tables
use ferrum_os.Paging.Tables.{copy_entries}
use ferrum_os.Fd.{Objects, fork_clone}
use ferrum_os.Vma.{Vma}
use ferrum_os.Vma.Space.{AddressSpace}
use ferrum_os.Sched.{Context, Process, Scheduler, ready, alloc_pid, add_process, slot_at}
use ferrum_os.Procs.{errno}
use ferrum_os.Spawn.{Kernel, phys_to_virt, zero_range, write_words, zero_context, kernel_virt_base}
use ferrum_os.Spawn.Copy.{expect, copy_areas, map_kernel_image}

-- the registers of the user program, in the order in which the system call entry stores them
pub record SyscallFrame : Type 0 where
  pub r15 : ℕ
  pub r14 : ℕ
  pub r13 : ℕ
  pub r12 : ℕ
  pub rbp : ℕ
  pub rbx : ℕ
  pub r9 : ℕ
  pub r8 : ℕ
  pub r10 : ℕ
  pub rdx : ℕ
  pub rsi : ℕ
  pub rdi : ℕ
  pub rax : ℕ
  pub user_rsp : ℕ
  pub r11 : ℕ
  pub rcx : ℕ

abbrev pub frame_words : SyscallFrame → List ℕ
frame_words f =
    f.r15 ∷ f.r14 ∷ f.r13 ∷ f.r12 ∷ f.rbp ∷ f.rbx ∷ f.r9 ∷ f.r8 ∷ f.r10 ∷ f.rdx ∷ f.rsi ∷ f.rdi
    ∷ f.rax ∷ f.user_rsp ∷ f.r11 ∷ f.rcx ∷ []

-- The registers from the frame at `base`: thirteen are popped, and then the stack pointer, the flags
-- (`r11`) and the next instruction (`rcx`) are loaded for `sysretq`.
unfoldable pub load_frame : (ℕ → ℕ) → ℕ → SyscallFrame
load_frame mem base = record {
  r15 = mem (base + 0);
  r14 = mem (base + 8);
  r13 = mem (base + 16);
  r12 = mem (base + 24);
  rbp = mem (base + 32);
  rbx = mem (base + 40);
  r9 = mem (base + 48);
  r8 = mem (base + 56);
  r10 = mem (base + 64);
  rdx = mem (base + 72);
  rsi = mem (base + 80);
  rdi = mem (base + 88);
  rax = mem (base + 96);
  user_rsp = mem (base + 104);
  r11 = mem (base + 112);
  rcx = mem (base + 120);
}

-- The trampoline loads the frame at its stack pointer. In between it saves the registers, calls
-- `setup_child_fs`, which sets the register `fs_base`, and restores them.
unfoldable pub fork_child_trampoline : (ℕ → ℕ) → ℕ → SyscallFrame
unfolding load_frame
fork_child_trampoline mem rsp = load_frame mem (rsp - kernel_virt_base)

abbrev pub kstack_len : ℕ
kstack_len = 4096 * 8

abbrev pub frame_size : ℕ
frame_size = 128

-- The child's kernel stack, which faults where it reaches over the end of memory: cleared, with the parent's frame at its top, `rax` set to 0, and the
-- address of the trampoline below. The value is the child's context.
unfoldable pub fork_stack : Kernel → ℕ → SyscallFrame → M Context
unfolding phys_to_virt write_words
fork_stack k kstack frame = do
  kstack_virt ← phys_to_virt kstack
  if leb (kstack_virt + kstack_len) u64_mod then zero_range kstack kstack_len else panic
  let frame_base = kstack + kstack_len - frame_size
  write_words frame_base (frame_words (record frame { rax = 0 }))
  write (frame_base - 8) k.fork_child_entry
  let virt_base = kstack_virt + kstack_len - frame_size
  pure (record zero_context { rbp = virt_base; rsp = virt_base - 8 })

-- The child: what is its own, and the rest of the parent.
abbrev pub child_of : Process → ℕ → Context → ℕ → ℕ → AddressSpace → Process
child_of parent new_pid context kstack kstack_top space = record parent {
  pid = new_pid;
  parent_pid = parent.pid;
  state = ready;
  exit_code = 0;
  context = context;
  kernel_stack_alloc = some (kstack, 3);
  kernel_stack_top = kstack_top;
  address_space = space;
}

abbrev pub finished :
    Process → ℕ → ℕ → Context → AddressSpace → Objects → ℕ → Option (Process × Objects)
finished parent new_pid kstack context space o kstack_virt =
    let cloned = fork_clone parent.fd_table o in
    let child = child_of parent new_pid context kstack (kstack_virt + kstack_len) space in
    some (record child { fd_table = cloned.0 }, cloned.1)

-- What follows the copies of the areas: the upper half of the parent's table, the kernel image, the
-- descriptors and the check of the allocator.
unfoldable pub finish_fork :
    Kernel → Process → ℕ → ℕ → Context → AddressSpace → Objects → M (Option (Process × Objects))
unfolding copy_entries map_kernel_image phys_to_virt fork_clone Buddy.check_metadata_integrity
finish_fork k parent new_pid kstack context space o = do
  copy_entries 256 256 space.pml4_phys parent.address_space.pml4_phys
  map_kernel_image space.pml4_phys k.image_base k.image_size
  Buddy.check_metadata_integrity
  kstack_virt ← phys_to_virt kstack
  pure (finished parent new_pid kstack context space o kstack_virt)

-- The steps of `fork` behind each result that may be missing.
abbrev pub with_child_areas :
    Kernel
    → Process
    → ℕ
    → ℕ
    → Context
    → Objects
    → ℕ
    → Option (List Vma)
    → M (Option (Process × Objects))
with_child_areas k parent new_pid kstack context o pml4 none = pure none
with_child_areas k parent new_pid kstack context o pml4 (some vmas) =
    finish_fork k parent new_pid kstack context
      (record { pml4_phys = pml4; vmas = vmas; owner_pid = new_pid }) o

abbrev pub with_child_table :
    Kernel → Process → ℕ → ℕ → Context → Objects → Option ℕ → M (Option (Process × Objects))
with_child_table k parent new_pid kstack context o none = pure none
with_child_table k parent new_pid kstack context o (some pml4) = do
  let source = parent.address_space
  copied ← copy_areas source.vmas source.pml4_phys pml4 new_pid []
  with_child_areas k parent new_pid kstack context o pml4 copied

abbrev pub with_kstack :
    Kernel → Process → ℕ → SyscallFrame → Objects → Option ℕ → M (Option (Process × Objects))
with_kstack k parent new_pid frame o none = pure none
with_kstack k parent new_pid frame o (some kstack) = do
  track kstack 3 proc_stack new_pid
  context ← fork_stack k kstack frame
  kernel_pml4 ← expect k.kernel_pml4
  table ← Tables.new_user kernel_pml4 new_pid
  with_child_table k parent new_pid kstack context o table

unfoldable pub fork : Kernel → Process → ℕ → SyscallFrame → Objects → M (Option (Process × Objects))
unfolding track fork_stack Tables.new_user copy_areas finish_fork
fork k parent new_pid frame o = do found ← Buddy.alloc 3; with_kstack k parent new_pid frame o found

-- the result of the call, and the scheduler and the objects after it
abbrev pub forked : Scheduler → Objects → Option (Process × Objects) → ℕ × Scheduler × Objects
forked s o none = (errno 12, s, o)
forked s o (some (child, o')) = (child.pid, add_process s child, o')

abbrev pub fork_parent :
    Kernel → Scheduler → SyscallFrame → Objects → Option Process → M (Option (Process × Objects))
fork_parent k s frame o none = pure none
fork_parent k s frame o (some parent) = fork k parent (alloc_pid s) frame o

unfoldable pub syscall_fork :
    Kernel → Scheduler → SyscallFrame → Objects → M (ℕ × Scheduler × Objects)
unfolding fork alloc_pid
syscall_fork k s frame o = do
  child ← fork_parent k s frame o (slot_at s.processes s.current_idx)
  pure (forked s o child)
