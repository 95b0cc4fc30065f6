-- ===== src/Machine.antt =====
-- Physical memory and the kernel's page-level state, with the monad of code that runs on it.
-- Memory is read and written in 64-bit cells, each named by its physical address: kernel code goes
-- through the direct map (`phys_to_virt` of kernel/src/paging.rs), so a physical address stands for
-- the pointer. The free-list heads and counts are the fields of `BuddyAllocator`, and `owners` is
-- `PAGE_OWNERS` of kernel/src/page_owner.rs.
use ferrum_os.Prelude.{
  ℕ, Bool, u64_mod, ◌+◌, ◌&&◌, Option, none, some, List, ltb, leb, ◌==◌, if◌then◌else◌, page_size,
}

-- the tags that the kernel passes to `page_owner::track`
pub data OwnerTag : Type 0 where
  vma_anon vma_stack vma_heap page_table_pml4 proc_stack elf_segment : OwnerTag

pub record PageOwner : Type 0 where
  pub tag : OwnerTag
  pub pid : ℕ
  pub order : ℕ

pub record Machine : Type 0 where
  pub mem : ℕ → ℕ
  pub free_heads : ℕ → ℕ
  pub free_counts : ℕ → ℕ
  pub owners : List (ℕ × PageOwner)

-- A run ends with a value and the machine after it; `none` is a panic, or a loop without end.
abbrev pub M : Type 0 → Type 0
M A = Machine → Option (A × Machine)

abbrev pub pure : {A : Type 0} → A → M A
pure a m = some (a, m)

abbrev pub panic : {A : Type 0} → M A
panic m = none

abbrev pub and_then : {A B : Type 0} → Option (A × Machine) → (A → M B) → Option (B × Machine)
and_then none f = none
and_then (some (a, m)) f = f a m

infixl 5 ◌>>=◌ ◌>>◌
abbrev pub ◌>>=◌ : {A B : Type 0} → M A → (A → M B) → M B
◌>>=◌ r f m = and_then (r m) f

abbrev pub ◌>>◌ : {B : Type 0} → M (Unit {0}) → M B → M B
r >> k = r >>= λ _. k

abbrev pub update : (ℕ → ℕ) → ℕ → ℕ → ℕ → ℕ
update f p v q = if q == p then v else f q

abbrev pub read : ℕ → M ℕ
read addr m = some (m.mem addr, m)

abbrev pub write : ℕ → ℕ → M (Unit {0})
write addr v m = some (tt, record m { mem = update m.mem addr v })

abbrev pub kernel_virt_base : ℕ
kernel_virt_base = 0xffff_8000_0000_0000

-- Whether `phys_to_virt` has an address for a physical one; without, its `checked_add` panics.
abbrev pub direct_mapped : ℕ → Bool
direct_mapped phys = ltb (kernel_virt_base + phys) u64_mod

-- `write_bytes(ptr, 0, PAGE_SIZE)`
abbrev pub zero_page : ℕ → M (Unit {0})
zero_page page m =
    some (tt, record m { mem = λ a. if leb page a && ltb a (page + page_size) then 0 else m.mem a })

-- A run that ends, with a value and in a state with the property.
abbrev pub Ends : {A : Type 0} → (A → Machine → Type 0) → Option (A × Machine) → Type 0
Ends P none = ⊥
Ends P (some (a, m)) = P a m

pub Ends-and_then :
    {A B : Type 0} (P : A → Machine → Type 0) (Q : B → Machine → Type 0) (r : Option (A × Machine))
    (f : A → M B)
    → Ends P r
    → ((a : A) (m : Machine) → P a m → Ends Q (f a m))
    → Ends Q (and_then r f)
Ends-and_then P Q none f h next = h
Ends-and_then P Q (some (a, m)) f h next = next a m h

pub Ends-map :
    {A : Type 0} (P Q : A → Machine → Type 0) (r : Option (A × Machine))
    → Ends P r
    → ((a : A) (m : Machine) → P a m → Q a m)
    → Ends Q r
Ends-map P Q none h next = h
Ends-map P Q (some (a, m)) h next = next a m h

-- A run that panics, or ends with the property.
abbrev pub Unless : {A : Type 0} → (A → Machine → Type 0) → Option (A × Machine) → Type 0
Unless P none = Unit {0}
Unless P (some (a, m)) = P a m

pub Unless-and_then :
    {A B : Type 0} (Q : B → Machine → Type 0) (r : Option (A × Machine)) (f : A → M B)
    → ((a : A) (m : Machine) → Unless Q (f a m))
    → Unless Q (and_then r f)
Unless-and_then Q none f next = tt
Unless-and_then Q (some (a, m)) f next = next a m

pub Unless-map :
    {A : Type 0} (P Q : A → Machine → Type 0) (r : Option (A × Machine))
    → Unless P r
    → ((a : A) (m : Machine) → P a m → Q a m)
    → Unless Q r
Unless-map P Q none h next = h
Unless-map P Q (some (a, m)) h next = next a m h

pub Unless-bind :
    {A B : Type 0} (P : A → Machine → Type 0) (Q : B → Machine → Type 0) (r : Option (A × Machine))
    (f : A → M B)
    → Unless P r
    → ((a : A) (m : Machine) → P a m → Unless Q (f a m))
    → Unless Q (and_then r f)
Unless-bind P Q none f h next = tt
Unless-bind P Q (some (a, m)) f h next = next a m h
