-- ===== src/Prelude/Results.antt =====
-- `Result<T, &'static str>`: the kernel's functions fail with a message, of which no caller reads
-- more than that it is there; the messages are the constructors of `Fault`.

pub data Fault : Type 0 where
  vma_overlap vma_not_found no_vma out_of_memory map_failed no_free_area : Fault
  not_found file_exists read_only : Fault
  bad_elf segment_bounds add_vma_failed : Fault

pub data Result {ℓ} (A : Type ℓ) : Type ℓ where
  ok : A → Result A
  err : Fault → Result A

infixl 5 ◌>>=◌
abbrev pub ◌>>=◌ {ℓ κ} : {A : Type ℓ} {B : Type κ} → Result A → (A → Result B) → Result B
ok a >>= f = f a
err e >>= f = err e
