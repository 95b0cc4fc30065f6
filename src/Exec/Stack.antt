-- ===== src/Exec/Stack.antt =====
-- `build_argv_envp_stack` of kernel/src/syscall.rs: the first stack of a user program. The memory that
-- it writes is a parameter: Paged has the stores through the page table, which the kernel makes.
use Prim.Native.Nat.{bit_xor}
use ferrum_os.Prelude.{
  ℕ, ◌+◌, ◌*◌, ◌/◌, ◌%◌, ◌^◌, List, [], ◌∷◌, ◌++◌, ◌==◌, if◌then◌else◌, length, add64, u64_mod,
  le_bytes,
}
use ferrum_os.Elf.Segments.{sub64}
use ferrum_os.Paths.{Str}
use ferrum_os.Io.Names.{as_bytes}

-- The lowest address in use, and the memory.
pub record Frame (S : Type 0) : Type 0 where
  pub addr : ℕ
  pub memory : S

-- What the builder is called with: the top of the stack, the strings, the program's entry point and
-- program headers, and the two readings of the time stamp counter.
pub record Start : Type 0 where
  pub ustack_top : ℕ
  pub argv : List Str
  pub envp : List Str
  pub elf_entry : ℕ
  pub elf_phdr_vaddr : ℕ
  pub elf_phent : ℕ
  pub elf_phnum : ℕ
  pub tsc1 : ℕ
  pub tsc2 : ℕ

-- `x << n` and `x >> n` on `u64`
abbrev pub shl64 : ℕ → ℕ → ℕ
shl64 x n = x * 2 ^ n % u64_mod

abbrev pub shr64 : ℕ → ℕ → ℕ
shr64 x n = x / 2 ^ n

unfoldable pub xorshift : ℕ → ℕ
xorshift x =
    let a = bit_xor x (shl64 x 13) in let b = bit_xor a (shr64 a 7) in bit_xor b (shl64 b 17)

unfoldable pub at_random : ℕ → ℕ → List ℕ
unfolding xorshift le_bytes
at_random tsc1 tsc2 =
    let x = bit_xor (bit_xor tsc1 (shl64 tsc2 17)) (shr64 tsc2 13) in
    let y = bit_xor (bit_xor tsc2 (shl64 tsc1 31)) (shr64 tsc1 5) in
    le_bytes 8 (xorshift x) ++ le_bytes 8 (xorshift y)

-- the rows of the auxiliary vector, AT_PHDR to AT_NULL
unfoldable pub auxv : Start → ℕ → List (ℕ × ℕ)
auxv s at_random_ptr =
    (3, s.elf_phdr_vaddr)
    ∷ (4, s.elf_phent)
    ∷ (5, s.elf_phnum)
    ∷ (6, 4096)
    ∷ (7, 0)
    ∷ (8, 0)
    ∷ (9, s.elf_entry)
    ∷ (11, 0)
    ∷ (12, 0)
    ∷ (13, 0)
    ∷ (14, 0)
    ∷ (23, 0)
    ∷ (25, at_random_ptr)
    ∷ (33, 0)
    ∷ (0, 0)
    ∷ []

-- `addr &= !0xF`, and one word less if the number of words is odd
unfoldable pub align_stack : ℕ → ℕ → ℕ
align_stack addr total_words =
    let aligned = addr / 16 * 16 in if total_words % 2 == 0 then aligned else sub64 aligned 8

-- `1 + argv.len() + 1 + envp.len() + 1 + auxv.len() * 2`
abbrev pub total_words : Start → List (ℕ × ℕ) → ℕ
total_words s rows = 1 + length s.argv + 1 + length s.envp + 1 + length rows * 2

module _ {S : Type 0} (store : S → ℕ → List ℕ → S) where
  -- `addr -= len + 1`, the bytes, and the zero behind them
  unfoldable pub push_string : Str → Frame S → Frame S
  unfolding as_bytes
  push_string s f =
      let bytes = as_bytes s in
      let addr = sub64 f.addr (length bytes + 1) in
      record {
        addr = addr;
        memory = store (store f.memory addr bytes) (add64 addr (length bytes)) (0 ∷ []);
      }

  -- the strings in order, each below the one before, and their addresses
  unfoldable pub push_strings : List Str → Frame S → Frame S × List ℕ
  unfolding push_string
  push_strings [] f = (f, [])
  push_strings (s ∷ ss) f =
      let g = push_string s f in let rest = push_strings ss g in (rest.0, g.addr ∷ rest.1)

  -- `addr -= 8; write_u64(addr, w)`
  unfoldable pub push_word : ℕ → Frame S → Frame S
  unfolding le_bytes
  push_word w f =
      let addr = sub64 f.addr 8 in
      record { addr = addr; memory = store f.memory addr (le_bytes 8 w) }

  -- The loops over the pointers and the rows go from the last to the first.
  unfoldable pub push_words : List ℕ → Frame S → Frame S
  unfolding push_word
  push_words [] f = f
  push_words (w ∷ ws) f = push_word w (push_words ws f)

  unfoldable pub push_rows : List (ℕ × ℕ) → Frame S → Frame S
  unfolding push_word
  push_rows [] f = f
  push_rows ((tag, val) ∷ rows) f = push_word tag (push_word val (push_rows rows f))

  abbrev pub push_random : List ℕ → Frame S → Frame S
  push_random bytes f =
      let addr = sub64 f.addr 16 in record { addr = addr; memory = store f.memory addr bytes }

  abbrev pub push_vectors : Start → List ℕ → List ℕ → Frame S → Frame S
  push_vectors s argv_ptrs envp_ptrs f =
      let rows = auxv s f.addr in
      let aligned : Frame S = record {
        addr = align_stack f.addr (total_words s rows);
        memory = f.memory;
      } in
      push_word (length s.argv) (
        push_words argv_ptrs
          (push_word 0 (push_words envp_ptrs (push_word 0 (push_rows rows aligned)))))

  -- The first stack pointer with the memory; the random bytes are `at_random s.tsc1 s.tsc2`.
  unfoldable pub build_argv_envp_stack : Start → S → Frame S
  unfolding push_strings at_random auxv align_stack push_rows push_words push_word
  build_argv_envp_stack s memory =
      let top : Frame S = record { addr = s.ustack_top; memory = memory } in
      let env = push_strings s.envp top in
      let arg = push_strings s.argv env.0 in
      push_vectors s arg.1 env.1 (push_random (at_random s.tsc1 s.tsc2) arg.0)
