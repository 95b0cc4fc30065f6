-- ===== src/Heap/Sizes.antt =====
-- The sizes of kernel/src/heap.rs: an object or a block is as large as what is asked for.
use mathlib.Core.Path.{subst}
use ferrum_os.Prelude.{
  ℕ, zero, suc, ◌+◌, ◌^◌, ◌≤◌, ◌<◌, ◌≡◌, Option, none, some, ltb, leb, arith, Bool-cases, inl, inr,
  page_size, if◌then◌else◌,
}
use ferrum_os.Heap.{object_size, position, size_to_slab, order_from, pages_to_order}

-- The loop ends with fuel to spare for every number of pages of 64 bits.
order_from-le :
    (fuel order pages : ℕ) → pages ≤ 2 ^ (order + fuel) → pages ≤ 2 ^ (order_from fuel order pages)
unfolding order_from
order_from-le zero order pages h =
    let same : order + 0 ≡ order = omega arith in subst (λ k. pages ≤ 2 ^ k) same h
order_from-le (suc fuel) order pages h = elim (Bool-cases (ltb (2 ^ order) pages)) [
  | inl c ↦
      let moved : order + suc fuel ≡ order + 1 + fuel = omega arith in
      rw c (order_from-le fuel (order + 1) pages (subst (λ k. pages ≤ 2 ^ k) moved h))
  | inr c ↦ rw c (ground arith)
]

pub pages_to_order-le : (pages : ℕ) → pages ≤ 2 ^ 64 → pages ≤ 2 ^ (pages_to_order pages)
unfolding pages_to_order
pages_to_order-le pages h = order_from-le 64 0 pages h

-- The slab for a size has objects that are large enough, and a size without a slab is above a page.
abbrev pub IsClass : ℕ → Option ℕ → Type 0
IsClass size none = page_size < size
IsClass size (some i) = (size ≤ object_size i) × (i < 10)

IsClass-step :
    (size i s : ℕ) (r : Option ℕ)
    → s ≤ object_size i
    → i < 10
    → (s < size → IsClass size r)
    → IsClass size (if leb size s then some i else r)
IsClass-step size i s r le lt rest = elim (Bool-cases (leb size s)) [
  | inl c ↦ rw (c, IsClass) (ground arith, lt)
  | inr c ↦ rw (c, IsClass) (rest (ground arith))
]

pub size_to_slab-IsClass : (size : ℕ) → IsClass size (size_to_slab size)
unfolding size_to_slab position
size_to_slab-IsClass size = IsClass-step size 0 8 _ (omega arith) (omega arith) (λ h.
    IsClass-step size 1 16 _ (omega arith) (omega arith) (λ h.
      IsClass-step size 2 32 _ (omega arith) (omega arith) (λ h.
        IsClass-step size 3 64 _ (omega arith) (omega arith) (λ h.
          IsClass-step size 4 128 _ (omega arith) (omega arith) (λ h.
            IsClass-step size 5 256 _ (omega arith) (omega arith) (λ h.
              IsClass-step size 6 512 _ (omega arith) (omega arith) (λ h.
                IsClass-step size 7 1024 _ (omega arith) (omega arith) (λ h.
                  IsClass-step size 8 2048 _ (omega arith) (omega arith)
                    (λ h. IsClass-step size 9 4096 _ (omega arith) (omega arith) (λ h. h))))))))))
