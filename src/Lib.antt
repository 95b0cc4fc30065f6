-- ===== src/Lib.antt =====
-- Ferrum OS: a verification library for the core of the kernel, kernel/src.
--
-- The kernel gives each process an address space, a descriptor table and a place in the process
-- table. System calls (kernel/src/syscall.rs) act on the current process; page faults, mmap and
-- munmap take pages from the buddy allocator and enter them in the page table; the timer and exit
-- call the scheduler.
--
-- Which file models which part:
-- - Prelude: Boolean tests, lists with native indices, 64-bit words, results. A `&'static str` error
--   is a constructor of Fault.
-- - Machine: physical memory in 64-bit cells, the heads and counts of the buddy allocator's free
--   lists, and the tracked pages. Code on it is a function to an Option, where none stands for a
--   panic or a loop that does not end.
-- - PageOwners: kernel/src/page_owner.rs (track, untrack).
-- - Buddy: kernel/src/allocator.rs (alloc, free, add_region, the integrity check); Pages is a
--   proof.
-- - Paging: kernel/src/paging.rs (map_4kb, map_2mb, unmap, translate, map_range, new_user,
--   free_user_tables, the last two in Tables); Unmap is a proof.
-- - Vma: kernel/src/vma.rs. The parent has the list (add_vma, find_vma, remove_vma), Area the
--   operations on the list alone (find_free_area, mmap, punch_one, extend_heap), Space those that
--   use the machine (handle_page_fault, munmap, clear_user, destroy, mmap_fixed). The other children
--   are proofs: Cover has the abstract view, a map from addresses to rights.
-- - Fd: kernel/src/fd.rs and kernel/src/pipe.rs. An Arc is an index into a store of objects. The
--   children prove the reference counts of pipe ends.
-- - Sched: the scheduler of kernel/src/process.rs; Next, Switching, Turns and Pids are proofs.
-- - Procs: system calls on processes and descriptors of kernel/src/syscall.rs (close, dup, dup2,
--   fcntl, pipe, exit, wait4); Descriptors, Exit, Picked and Wait are proofs.
-- - Memory: mmap, munmap and brk of kernel/src/syscall.rs; Brk is a proof.
-- - Pipes: the pipe branches of read and write in kernel/src/syscall.rs; Stream is a proof.
-- - Paths: resolve_path of kernel/src/syscall.rs; Normal and Nested are proofs.
-- - Ramfs: kernel/src/fs/ramfs.rs; Bytes and Tree are proofs.
-- - Io: the file system calls of kernel/src/syscall.rs, on one record of the current process, the
--   open files, the RAM file system and user memory. Files has those on descriptors (read, write,
--   pread64, lseek, and writev in Vector), Console the serial branch of read, Names those on paths
--   (open, access, and stat and fstat in Stat, faccessat, chdir, getcwd, mkdir, rename, unlink), Listing
--   getdents64, Info those that report (uname, ioctl, clock_gettime, time, getrandom, arch_prctl);
--   openat, newfstatat and unlinkat are such calls on other registers. Buffers, Files.RoundTrip,
--   Files.Seek, Names.Cwd, Names.Exists and Listing.Bounds are proofs.
-- - Initramfs: kernel/src/initramfs.rs (the headers, extract); Digits and Bounds are proofs.
-- - Elf: kernel/src/elf.rs, with load and load_elf of kernel/src/vma.rs in Segments; Bounds is a
--   proof.
-- - Locks: IrqMutex of kernel/src/spinlock.rs as a step relation; Exclusion is a proof.
-- - Heap: kernel/src/heap.rs; Sizes is a proof.
-- - Procfs: the texts of kernel/src/fs/procfs.rs; its nodes are in Io. Digits is a proof.
-- - Faults: page_fault_inner of kernel/src/interrupts.rs, and the tgkill branch of
--   kernel/src/syscall.rs.
-- - Spawn: kernel/src/process.rs (new_kernel, new_user, do_switch, iretq_trampoline), with
--   Process::fork, fork_child_trampoline and syscall_fork of kernel/src/syscall.rs in Fork, and the
--   copies of pages and map_kernel_image of kernel/src/paging.rs in Copy; Resume, Copied and Unique
--   are proofs.
-- - Exec: read_user_cstr_array, build_argv_envp_stack (Stack; Paged has its stores through the page
--   table) and execve (Execve) of kernel/src/syscall.rs, and new_user_with_address_space of
--   kernel/src/process.rs (First); Words, Pushed, Vectors, Passed
--   and Handover are proofs.
-- - Boot: kernel/src/main.rs (populate_rootfs, load_init_elf, start_scheduler, and
--   add_region_excluding in Regions); Cover, Made and Populated are proofs.
-- - Entry: syscall_entry and the table of syscall_handler of kernel/src/syscall.rs; Inline has the
--   handler's own branches, futex, and preempt_yield of kernel/src/interrupts.rs; Frames is a proof.
-- - Tests: the theorems at concrete inputs.
--
-- Numbers are native natural numbers. Additions on addresses wrap at 2 ^ 64 as in a release build; a
-- debug build panics there. Subtractions stop at 0 where the source saturates or has tested.
-- The checks behind debug_assertions in kernel/src/allocator.rs are not compiled in a release build and
-- are left out.
--
-- phys_to_virt of kernel/src/paging.rs panics from address 2 ^ 47 on. This is written out for the links
-- of the free lists, for page tables and for pages that a page table names. A page that alloc hands
-- out has been read through phys_to_virt, so that code which then clears or fills it has no such test.
--
-- Fuel: loops over addresses (release_pages, map_range) take the number of rounds that their bounds
-- give; walks of free lists take the counted length, as the source's own cycle test does. When fuel
-- runs out, the result is none. pages_to_order doubles at most 64 times, which is enough for a count
-- of 64 bits; extract takes one round more than the archive has bytes, where a round takes at least
-- a header; write_to_user takes as many rounds as bytes, where a round writes at least one.
--
-- Not modelled: the assembly of the interrupt entries, device registers, the UEFI calls of the boot,
-- the tests in the kernel, and the user programs. The addresses of the trampolines, the selectors of user mode, the place of the kernel
-- image, the time stamp counter and the decoding of UTF-8 are arguments. Locks are taken around each operation, so outside Locks each
-- operation is one step. The lists and texts that the kernel keeps on its own
-- heap always find room there. User memory in Io is a function from addresses to bytes, and a read or
-- write through a user pointer does not fault.
pub mod Prelude
pub mod Vma
pub mod Machine
pub mod PageOwners
pub mod Buddy
pub mod Paging
pub mod Fd
pub mod Sched
pub mod Procs
pub mod Paths
pub mod Ramfs
pub mod Memory
pub mod Pipes
pub mod Initramfs
pub mod Locks
pub mod Elf
pub mod Faults
pub mod Heap
pub mod Procfs
pub mod Io
pub mod Spawn
pub mod Exec
pub mod Boot
pub mod Entry
pub mod Tests
