-- ===== src/Exec.antt =====
-- Programs and their first state: `read_user_cstr_array` of kernel/src/syscall.rs here, and in the
-- modules below the first stack, its pages, and the calls that start a program.
pub mod Stack
pub mod Words
pub mod Pushed
pub mod Vectors
pub mod Passed
pub mod Paged
pub mod Execve
pub mod First
pub mod Handover
use ferrum_os.Prelude.{
  ℕ, zero, suc, ◌+◌, Option, none, some, List, [], ◌∷◌, ◌==◌, if◌then◌else◌, le_word,
}
use ferrum_os.Paths.{Str}
use ferrum_os.Io.{load_bytes, read_user_cstr}

-- `*ptr.add(i)` on a `*const u64`
unfoldable pub load_word : (ℕ → ℕ) → ℕ → ℕ
unfolding le_word load_bytes
load_word user addr = le_word (load_bytes user addr 8)

abbrev pub on_cstr : Option Str → List Str → List Str
on_cstr none rest = []
on_cstr (some s) rest = s ∷ rest

abbrev pub on_item : (ℕ → ℕ) → ℕ → List Str → List Str
on_item user entry_ptr rest =
    if entry_ptr == 0 then [] else on_cstr (read_user_cstr user entry_ptr 256) rest

-- the loop, with `n` items left
unfoldable pub cstr_items : (ℕ → ℕ) → ℕ → ℕ → List Str
unfolding load_word read_user_cstr
cstr_items user addr zero = []
cstr_items user addr (suc n) = on_item user (load_word user addr) (cstr_items user (addr + 8) n)

unfoldable pub read_user_cstr_array : (ℕ → ℕ) → ℕ → ℕ → List Str
unfolding cstr_items
read_user_cstr_array user ptr max_items = if ptr == 0 then [] else cstr_items user ptr max_items
