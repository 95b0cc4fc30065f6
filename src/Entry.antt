-- ===== src/Entry.antt =====
-- kernel/src/syscall.rs: the way into a system call and out of it, `syscall_entry`, which is assembly,
-- and the choice of the handler by `syscall_handler`; the handlers that it holds itself are in Inline.
-- A cell is named by its physical address, so the kernel stack is named by the cell at its top.
pub mod Frames
pub mod Inline
use ferrum_os.Prelude.{ℕ, ◌+◌, ◌-◌, Option, none, some, List, [], ◌∷◌, ◌==◌, if◌then◌else◌}
use ferrum_os.Machine.{M, update, pure, ◌>>=◌, ◌>>◌, write}
use ferrum_os.Procs.{errno}
use ferrum_os.Spawn.Fork.{SyscallFrame, load_frame}

-- the registers in the order of the pushes; `rcx` and `r11` hold the program's next instruction and flags
abbrev pub pushed_registers : SyscallFrame → List ℕ
pushed_registers f =
    f.rcx ∷ f.r11 ∷ f.user_rsp ∷ f.rax ∷ f.rdi ∷ f.rsi ∷ f.rdx ∷ f.r10 ∷ f.r8 ∷ f.r9 ∷ f.rbx ∷ f.rbp
    ∷ f.r12 ∷ f.r13 ∷ f.r14 ∷ f.r15 ∷ []

-- `push` of each: the value is the stack pointer after it.
unfoldable pub push_registers : ℕ → List ℕ → M ℕ
push_registers rsp [] = pure rsp
push_registers rsp (w ∷ ws) = do write (rsp - 8) w; push_registers (rsp - 8) ws

-- The first part of `syscall_entry`: the stack that the handler gets as its frame
unfoldable pub enter : ℕ → SyscallFrame → M ℕ
unfolding push_registers
enter kernel_rsp f = push_registers kernel_rsp (pushed_registers f)

-- The last part: the result goes to the place of `rax`, and the registers are loaded.
unfoldable pub leave : (ℕ → ℕ) → ℕ → ℕ → SyscallFrame
unfolding load_frame
leave mem base result = load_frame (update mem (base + 0x60) result) base

-- The functions that `syscall_handler` calls, an inline branch that does something, and a constant.
pub data Handler : Type 0 where
  handle_read handle_write handle_open handle_close handle_stat handle_fstat : Handler
  handle_newfstatat handle_fcntl handle_getcwd handle_fork handle_wait4 handle_chdir : Handler
  handle_mkdir handle_rename handle_unlink handle_unlinkat handle_execve handle_exit : Handler
  handle_mmap handle_munmap handle_brk handle_ioctl handle_getdents64 handle_arch_prctl : Handler
  handle_writev handle_pread64 handle_access handle_dup handle_dup2 handle_uname : Handler
  handle_futex handle_clock_gettime handle_pipe handle_lseek handle_openat : Handler
  handle_faccessat handle_getrandom : Handler
  inline_getpid inline_getppid inline_gettid inline_set_tid_address inline_clone : Handler
  inline_yield inline_time inline_tgkill inline_clock_getres : Handler
  constant : ℕ → Handler

-- the table of `nr` and `match nr`
abbrev pub routes : List (ℕ × Handler)
routes =
    (0, handle_read)
    ∷ (1, handle_write)
    ∷ (2, handle_open)
    ∷ (3, handle_close)
    ∷ (4, handle_stat)
    ∷ (6, handle_stat)
    ∷ (5, handle_fstat)
    ∷ (262, handle_newfstatat)
    ∷ (72, handle_fcntl)
    ∷ (39, inline_getpid)
    ∷ (110, inline_getppid)
    ∷ (107, constant 0)
    ∷ (79, handle_getcwd)
    ∷ (57, handle_fork)
    ∷ (56, inline_clone)
    ∷ (61, handle_wait4)
    ∷ (80, handle_chdir)
    ∷ (83, handle_mkdir)
    ∷ (82, handle_rename)
    ∷ (87, handle_unlink)
    ∷ (263, handle_unlinkat)
    ∷ (40, constant (errno 22))
    ∷ (59, handle_execve)
    ∷ (60, handle_exit)
    ∷ (231, handle_exit)
    ∷ (24, inline_yield)
    ∷ (9, handle_mmap)
    ∷ (11, handle_munmap)
    ∷ (10, constant 0)
    ∷ (12, handle_brk)
    ∷ (16, handle_ioctl)
    ∷ (13, constant 0)
    ∷ (14, constant 0)
    ∷ (217, handle_getdents64)
    ∷ (218, inline_set_tid_address)
    ∷ (201, inline_time)
    ∷ (234, inline_tgkill)
    ∷ (158, handle_arch_prctl)
    ∷ (20, handle_writev)
    ∷ (17, handle_pread64)
    ∷ (21, handle_access)
    ∷ (32, handle_dup)
    ∷ (33, handle_dup2)
    ∷ (35, constant 0)
    ∷ (230, constant 0)
    ∷ (102, constant 0)
    ∷ (104, constant 0)
    ∷ (108, constant 0)
    ∷ (105, constant 0)
    ∷ (106, constant 0)
    ∷ (186, inline_gettid)
    ∷ (63, handle_uname)
    ∷ (202, handle_futex)
    ∷ (228, handle_clock_gettime)
    ∷ (229, inline_clock_getres)
    ∷ (22, handle_pipe)
    ∷ (293, handle_pipe)
    ∷ (8, handle_lseek)
    ∷ (257, handle_openat)
    ∷ (267, constant (errno 2))
    ∷ (269, handle_faccessat)
    ∷ (273, constant 0)
    ∷ (302, constant 0)
    ∷ (318, handle_getrandom)
    ∷ (334, constant (errno 38))
    ∷ (332, constant (errno 38))
    ∷ []

-- the first row of that number, and ENOSYS without one
unfoldable pub find_route : ℕ → List (ℕ × Handler) → Handler
find_route nr [] = constant (errno 38)
find_route nr ((n, h) ∷ rows) = let rest = find_route nr rows in if nr == n then h else rest

-- `match nr` of `syscall_handler`
unfoldable pub route : ℕ → Handler
unfolding find_route
route nr = find_route nr routes
