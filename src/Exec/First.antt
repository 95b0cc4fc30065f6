-- ===== src/Exec/First.antt =====
-- `Process::new_user_with_address_space` of kernel/src/process.rs, which makes the first process of a
-- loaded program.
use ferrum_os.Prelude.{ℕ, ◌+◌, ◌-◌, ◌*◌, Option, none, some, List, Result, ok, err, page_size}
use ferrum_os.Machine.{M, pure, panic, ◌>>=◌, ◌>>◌, write, zero_page}
use ferrum_os.Paging.{on_some, alloc_page, map_4kb, expect_mapped, translate}
use ferrum_os.Fd.{Objects, new_stdio}
use ferrum_os.Vma.{Vma, stack, add_vma}
use ferrum_os.Vma.Area.{new_vma}
use ferrum_os.Vma.Space.{AddressSpace}
use ferrum_os.Sched.{Process}
use ferrum_os.Spawn.{
  Kernel, phys_to_virt, user_stack, zero_context, new_process, stack_flags, checked_sub, map_stack,
}
use ferrum_os.Exec.Stack.{Start}
use ferrum_os.Exec.Paged.{build_stack}
use ferrum_os.Exec.Execve.{read_write, with_vma, tcb_page, tcb_fs_base, tcb_area, canary_of}

-- The kernel stack of a process: its lowest cell, its length, and the block to free at the end.
pub record KernelStack : Type 0 where
  pub base : ℕ
  pub len : ℕ
  pub block : Option (ℕ × ℕ)

-- The thread block, if there is a page for it; whether the page could be mapped is not asked.
abbrev pub place_tcb : AddressSpace → Option ℕ → M AddressSpace
place_tcb space none = pure space
place_tcb space (some phys) = do
  zero_page phys
  _ ← map_4kb space.pml4_phys tcb_page phys stack_flags
  write (phys + 0x20) tcb_fs_base
  write (phys + 0x30) tcb_fs_base
  pure (with_vma space tcb_area)

-- The canary goes to the page that the page table has for the thread block; without one, panic.
abbrev pub place_canary : ℕ → Option ℕ → M (Unit {0})
place_canary canary none = panic
place_canary canary (some phys) = expect_mapped phys >> write (phys + 0x48) canary

unfoldable pub write_canary : ℕ → ℕ → M (Unit {0})
unfolding translate
write_canary pml4 canary = translate pml4 tcb_page >>= place_canary canary

abbrev pub first_process : ℕ → AddressSpace → KernelStack → ℕ → Objects → Process × Objects
first_process pid space kstack kstack_virt o =
    let kstack_top = kstack_virt + kstack.len in
    let context = record zero_context { rsp = kstack_top - 48 } in
    let stdio = new_stdio o in
    let p = new_process pid context kstack_top space stdio.0 in
    (record p { kernel_stack_alloc = kstack.block; fs_base = tcb_fs_base }, stdio.1)

abbrev pub on_stack :
    Kernel
    → ℕ
    → ℕ
    → KernelStack
    → Start
    → AddressSpace
    → Objects
    → Result (List Vma)
    → M (Option (Process × Objects))
on_stack k pid entry_point kstack start space o (err e) = pure none
on_stack k pid entry_point kstack start space o (ok vmas) = do
  let space1 = record space { vmas = vmas }
  initial_rsp ← build_stack space.pml4_phys start
  tcb ← alloc_page
  space2 ← place_tcb space1 tcb
  write_canary space.pml4_phys (canary_of start)
  kstack_virt ← phys_to_virt kstack.base
  user_stack k kstack.base kstack.len entry_point initial_rsp
  pure (some (first_process pid space2 kstack kstack_virt o))

unfoldable pub new_user_with_address_space :
    Kernel
    → ℕ
    → ℕ
    → KernelStack
    → ℕ
    → Start
    → AddressSpace
    → Objects
    → M (Option (Process × Objects))
unfolding map_stack add_vma build_stack alloc_page write_canary phys_to_virt user_stack new_stdio
new_user_with_address_space k pid entry_point kstack ustack_pages start space o =
    on_some (checked_sub start.ustack_top (ustack_pages * page_size)) λ ustack_base. do
      stacked ← map_stack ustack_pages space.pml4_phys ustack_base pid
      on_some stacked λ _.
          on_stack k pid entry_point kstack start space o
            (add_vma space.vmas (new_vma ustack_base start.ustack_top read_write stack))
