-- ===== src/Tests/Programs.antt =====
-- Memory for one fork of kernel/src/process.rs, a program's first stack as kernel/src/syscall.rs builds
-- it, and what kernel/src/main.rs does at the start with a region and without an archive.
use ferrum_os.Prelude.{
  ℕ, true, zero, suc, ◌+◌, ◌≤◌, ◌||◌, sym, ◌∙◌, ◌≡◌, refl, Option, none, some, [], ◌∷◌, arith, ◌==◌,
  if◌then◌else◌,
}
use ferrum_os.Machine.{Machine, Ends, Unless}
use ferrum_os.Buddy
use ferrum_os.Entry.{enter}
use ferrum_os.Entry.Frames.{Saved, enter-Saved}
use ferrum_os.Fd.{Objects, fork_clone}
use ferrum_os.Fd.Counts.{IsBalanced}
use ferrum_os.Sched.{Process, Scheduler, running}
use ferrum_os.Spawn.{Kernel, zero_context}
use ferrum_os.Spawn.Fork.{SyscallFrame, fork_stack, fork, syscall_fork}
use ferrum_os.Spawn.Resume.{Resumes, fork_stack-Resumes}
use ferrum_os.Spawn.Unique.{ForkEnd, syscall_fork-ForkEnd}
use ferrum_os.Sched.{slot_at}
use ferrum_os.Sched.Pids.{UniquePids}
use ferrum_os.Vma.{anonymous}
use ferrum_os.Vma.Area.{new_vma}
use ferrum_os.Paging.{translate}
use ferrum_os.Procs.{errno}
use ferrum_os.Ramfs.{Ramfs, regular}
use ferrum_os.Exec.Execve.{ExecEnd, failed, started, syscall_execve, read_write, entry_frame}
use ferrum_os.Exec.Pushed.{room}
use ferrum_os.Exec.{read_user_cstr_array}
use ferrum_os.Exec.Passed.{words_room}
use ferrum_os.Io.{store_bytes}
use ferrum_os.Exec.Stack.{Start, build_argv_envp_stack}
use ferrum_os.Exec.Passed.{Passed, build_argv_envp_stack-Passed}
use ferrum_os.Boot.Regions.{remaining}
use ferrum_os.Fd.Fork.{and_table, fork_clone-IsBalanced}
use ferrum_os.Boot.Cover.{Leaves, remaining-Leaves}
use ferrum_os.Boot.{populate_rootfs}
use ferrum_os.Initramfs.{extracted}
use ferrum_os.Boot.Populated.{IsPopulated, populate_rootfs-IsPopulated}
use ferrum_os.Tests.Processes.{process}
use ferrum_os.Tests.Files.{objects, table, nobody, table-IsBalanced}

-- a shell with both ends of a pipe and one page of memory at 0x400000
abbrev shell : Process
shell = record (process 1 0 running) {
  fd_table = table;
  address_space = record {
    pml4_phys = 0x10000;
    vmas = new_vma 0x400000 0x401000 read_write anonymous ∷ [];
    owner_pid = 1;
  };
}

abbrev one_shell : Scheduler
one_shell = record { processes = some shell ∷ []; current_idx = 0; initialized = true }

-- its page tables, its page at 0x50000, and free blocks of eight pages and of 64
abbrev memory : Machine
memory = record {
  mem = λ a.
      if a == 0x10000
      then 0x11007
      else if a == 0x11000
      then 0x12007
      else if a == 0x12010
      then 0x13007
      else if a == 0x13000
      then 0x50007
      else if a == 0x50008
      then 42
      else 0;
  free_heads = λ n. if n == 3 then 0x100000 else if n == 6 then 0x200000 else 0;
  free_counts = λ n. if n == 3 || n == 6 then 1 else 0;
  owners = [];
}

abbrev kernel : Kernel
kernel = record {
  iretq_entry = 0x1000;
  fork_child_entry = 0x2000;
  user_cs = 0x33;
  user_ss = 0x2b;
  kernel_pml4 = some 0x20000;
  image_base = 0x30000;
  image_size = 0x1000;
}

abbrev frame : SyscallFrame
frame = record (entry_frame 0x400010 0x7000) { rax = 57; rbx = 5 }

-- The child has number 2, and its copy of the page holds what the parent's does.
abbrev copied_word : Option (Option (Process × Objects) × Machine) → Option (ℕ × Option ℕ)
copied_word none = none
copied_word (some (none, m)) = none
copied_word (some (some (child, o), m)) =
    some (child.pid, word_at_page (translate child.address_space.pml4_phys 0x400000 m))
  where
    word_at_page : Option (Option ℕ × Machine) → Option ℕ
    word_at_page none = none
    word_at_page (some (none, m)) = none
    word_at_page (some (some phys, m)) = some (m.mem (phys + 8))

fork_runs : copied_word (fork kernel shell 2 frame objects memory) ≡ some (2, some 42)
unfolding fork translate Buddy.alloc
fork_runs = refl

fork_stack-Resumes_example :
    Ends
      (Resumes kernel zero_context (record frame { rax = 0 }))
      (fork_stack kernel 0x100000 frame memory)
fork_stack-Resumes_example =
    fork_stack-Resumes kernel 0x100000 zero_context frame memory (omega arith)

fork_clone-IsBalanced_example :
    ((fork_clone shell.fd_table objects).0 ≡ shell.fd_table)
    × IsBalanced
        (and_table nobody objects shell.fd_table)
        (fork_clone shell.fd_table objects).1
        (fork_clone shell.fd_table objects).0
fork_clone-IsBalanced_example = fork_clone-IsBalanced nobody objects shell.fd_table table-IsBalanced

shell_slot : (i : ℕ) (p : Process) → slot_at one_shell.processes i ≡ some p → i ≡ 0
shell_slot zero p h = refl
shell_slot (suc i) p h = absurd (ground arith)

one_shell-UniquePids : UniquePids one_shell
one_shell-UniquePids = record {
  unique = λ i j p q hp hq e. shell_slot i p hp ∙ sym (shell_slot j q hq);
}

syscall_fork-ForkEnd_example :
    Unless (ForkEnd one_shell objects) (syscall_fork kernel one_shell frame objects memory)
syscall_fork-ForkEnd_example =
    syscall_fork-ForkEnd kernel one_shell shell 0 frame objects nobody memory refl
      one_shell-UniquePids table-IsBalanced (omega arith, omega arith, tt)

enter-Saved_example : Ends (Saved 0x108000 frame) (enter 0x108000 frame memory)
enter-Saved_example = enter-Saved 0x108000 frame memory (omega arith)

-- `sh -c`, with one variable
abbrev start : Start
start = record {
  ustack_top = 0x7fff0000;
  argv = (115 ∷ 104 ∷ []) ∷ (45 ∷ 99 ∷ []) ∷ [];
  envp = (65 ∷ 61 ∷ 49 ∷ []) ∷ [];
  elf_entry = 0x400010;
  elf_phdr_vaddr = 0x400040;
  elf_phent = 56;
  elf_phnum = 2;
  tsc1 = 12345;
  tsc2 = 67890;
}

start-fits : room start.envp + room start.argv + words_room start ≤ start.ustack_top
unfolding room
start-fits = omega arith

build_argv_envp_stack-Passed_example :
    Passed start 32 64 (build_argv_envp_stack store_bytes start (λ a. 0))
build_argv_envp_stack-Passed_example =
    build_argv_envp_stack-Passed start (λ a. 0) 32 64 (omega arith) start-fits
      (refl, omega arith, (refl, omega arith, tt)) (refl, omega arith, tt)
      (omega arith, omega arith, omega arith, omega arith) (omega arith) (omega arith)

-- a caller with the argument array at 0x1000, `sh` at 0x2000, and no environment
abbrev caller : ℕ → ℕ
caller a = if a == 0x1001 then 0x20 else if a == 0x2000 then 115 else if a == 0x2001 then 104 else 0

caller_argv : read_user_cstr_array caller 0x1000 32 ≡ (115 ∷ 104 ∷ []) ∷ []
unfolding read_user_cstr_array
caller_argv = refl

-- `/sh` is a text of two characters.
abbrev text_file : Ramfs
text_file = record {
  entries = record { path = 47 ∷ 115 ∷ 104 ∷ []; node = 0 } ∷ [];
  nodes = record { file_type = regular; bytes = 35 ∷ 33 ∷ [] } ∷ [];
}

abbrev refusal : Option (ExecEnd × Machine) → Option ℕ
refusal none = none
refusal (some (failed n p, m)) = some n
refusal (some (started p f, m)) = none

text_refused :
    refusal (syscall_execve text_file one_shell caller 0x2000 0x1000 0 12345 67890 memory)
    ≡ some (errno 8)
unfolding syscall_execve
text_refused = refl

remaining-Leaves_example :
    Leaves ((0x2000, 0x3000) ∷ (0x5000, 0x6000) ∷ (0x9000, 0xa000) ∷ []) ((0x1000, 0x8000) ∷ []) (
      remaining
        ((0x2000, 0x3000) ∷ (0x5000, 0x6000) ∷ (0x9000, 0xa000) ∷ [])
        ((0x1000, 0x8000) ∷ []))
remaining-Leaves_example =
    remaining-Leaves (0x1000, 0x8000) (0x2000, 0x3000) (0x5000, 0x6000) (0x9000, 0xa000)

region_parts :
    remaining ((0x2000, 0x3000) ∷ (0x5000, 0x6000) ∷ (0x9000, 0xa000) ∷ []) ((0x1000, 0x8000) ∷ [])
    ≡ some ((0x1000, 0x2000) ∷ (0x3000, 0x5000) ∷ (0x6000, 0x8000) ∷ [])
unfolding remaining
region_parts = refl

populate_rootfs-IsPopulated_example :
    IsPopulated
      (extracted (record { entries = []; nodes = [] }))
      (populate_rootfs (λ bytes. some bytes) none (record { entries = []; nodes = [] }))
populate_rootfs-IsPopulated_example =
    populate_rootfs-IsPopulated (λ bytes. some bytes) none (record { entries = []; nodes = [] })
      (omega arith)
