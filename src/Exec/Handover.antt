-- ===== src/Exec/Handover.antt =====
-- `syscall_execve` of kernel/src/syscall.rs: the arguments on their way from the caller's memory to the
-- stack of the new program.
use ferrum_os.Prelude.{ℕ, zero, suc, ◌≤◌, ◌<◌, ◌≡◌, true, Option, none, some, List, [], ◌∷◌, length}
use ferrum_os.Paths.{Str}
use ferrum_os.Io.Names.Cwd.{is_ascii}
use ferrum_os.Exec.Stack.{Frame, Start}
use ferrum_os.Exec.Words.{Memory}
use ferrum_os.Exec.Passed.{Passed}
use ferrum_os.Exec.Execve.{passing, start_with, ustack_virt, ustack_base}

abbrev pub AreAscii : List Str → Type 0
AreAscii [] = Unit {0}
AreAscii (s ∷ ss) = (is_ascii s ≡ true) × AreAscii ss

abbrev IsShort : ℕ → Option Str → Type 0
IsShort max none = Unit {0}
IsShort max (some s) = length s < max

-- Strings that are short, and not too many of them
abbrev AreShort : ℕ → List Str → Type 0
AreShort n [] = Unit {0}
AreShort zero (s ∷ ss) = ⊥
AreShort (suc n) (s ∷ ss) = (length s < 256) × AreShort n ss

-- The new program finds what the caller passed, and its stack pointer lies in the pages of its stack.
abbrev pub Handed : Start → Frame Memory → Type 0
Handed s f = Passed s 32 64 f × (ustack_base ≤ f.addr) × (f.addr < ustack_virt)

-- the stack that execve asks for, from its registers, the time stamps and the loaded program
abbrev pub exec_start : Memory → ℕ → ℕ → ℕ → ℕ → ℕ → List ℕ → Start
exec_start user argv_ptr envp_ptr tsc1 tsc2 entry elf_data =
    start_with ustack_virt (passing user argv_ptr envp_ptr tsc1 tsc2) elf_data entry
