-- ===== src/Prelude/Words.antt =====
-- Unsigned 64-bit arithmetic. Values are plain numbers below `2 ^ 64`; sums wrap, as they do in the
-- release build (the debug build panics there).
use Prim.Native.Nat.{ℕ, ◌+◌, ◌-◌, ◌*◌, ◌/◌, ◌%◌, ◌^◌}

abbrev pub u64_mod : ℕ
u64_mod = 2 ^ 64

abbrev pub page_size : ℕ
page_size = 4096

-- `a + b` on `u64`
abbrev pub add64 : ℕ → ℕ → ℕ
add64 a b = (a + b) % u64_mod

-- `addr & !(PAGE_SIZE - 1)`: the low twelve bits cleared
abbrev pub page_down : ℕ → ℕ
page_down addr = addr / page_size * page_size

-- `(addr + PAGE_SIZE - 1) & !(PAGE_SIZE - 1)`
abbrev pub page_up : ℕ → ℕ
page_up addr = page_down (add64 addr (page_size - 1))
