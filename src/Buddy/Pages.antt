-- ===== src/Buddy/Pages.antt =====
-- kernel/src/allocator.rs: the pages that the free lists count, before and after alloc.
use mathlib.Core.Path.{subst}
use ferrum_os.Prelude.{
  ℕ, zero, suc, ◌+◌, ◌-◌, ◌*◌, ◌^◌, ◌≤◌, ◌<◌, ◌≡◌, refl, ◌∙◌, ap, sym, false, ◌==◌, Option, none,
  some, ltb, add64, u64_mod, true, arith, Bool-cases, inl, inr, min,
}
use ferrum_os.Machine.{
  Machine, kernel_virt_base, direct_mapped, update, pure, ◌>>=◌, ◌>>◌, and_then,
}
use ferrum_os.Buddy.{
  max_order, order_to_size, push_block, pop_block, find_order, split_block, alloc,
}

-- the pages of the blocks that are counted below an order
abbrev pub pages_below : ℕ → (ℕ → ℕ) → ℕ
pages_below zero counts = 0
pages_below (suc n) counts = pages_below n counts + counts n * 2 ^ n

pages_below-update_of_le :
    (n order v : ℕ) (counts : ℕ → ℕ)
    → n ≤ order
    → pages_below n (update counts order v) ≡ pages_below n counts
pages_below-update_of_le zero order v counts h = refl
pages_below-update_of_le (suc n) order v counts h =
    let other : (n == order) ≡ false = ground arith in
    rw other (omega (arith, pages_below-update_of_le n order v counts (omega arith)))

-- A count that changes changes the sum by its blocks.
pages_below-update :
    (n order v : ℕ) (counts : ℕ → ℕ)
    → order < n
    → pages_below n (update counts order v) + counts order * 2 ^ order
      ≡ pages_below n counts + v * 2 ^ order
pages_below-update zero order v counts h = absurd (omega arith)
pages_below-update (suc n) order v counts h = elim (Bool-cases (n == order)) [
  | inl c ↦
      let same : n ≡ order = ground arith in
      rw c (rw same (omega (arith, pages_below-update_of_le order order v counts (omega arith))))
  | inr c ↦ rw c (omega (arith, pages_below-update n order v counts (ground arith)))
]

-- What a search of `n` orders from `o` on finds: a counted block, or no block in any of them.
abbrev IsFound : ℕ → ℕ → (ℕ → ℕ) → Option ℕ → Type 0
IsFound n o counts none = pages_below (o + n) counts ≡ pages_below o counts
IsFound n o counts (some found) = (o ≤ found) × (found < o + n) × (0 < counts found)

later_order :
    (n o : ℕ) (counts : ℕ → ℕ) (r : Option ℕ)
    → counts o ≡ 0
    → IsFound n (o + 1) counts r
    → IsFound (suc n) o counts r
later_order n o counts none empty h =
    let moved : o + suc n ≡ o + 1 + n = omega arith in
    let next : o + 1 ≡ suc o = omega arith in
    let top : pages_below (suc o) counts ≡ pages_below o counts = rw empty (omega arith) in
    let step : pages_below (o + 1) counts ≡ pages_below o counts =
      ap (λ k. pages_below k counts) next ∙ top in
    ap (λ k. pages_below k counts) moved ∙ h ∙ step
later_order n o counts (some found) empty h = omega (arith, h)

find_order-IsFound : (n o : ℕ) (counts : ℕ → ℕ) → IsFound n o counts (find_order n o counts)
unfolding find_order
find_order-IsFound zero o counts =
    let same : o + 0 ≡ o = omega arith in ap (λ k. pages_below k counts) same
find_order-IsFound (suc n) o counts = elim (Bool-cases (ltb 0 (counts o))) [
  | inl c ↦ rw (c, IsFound) (omega arith, omega arith, ground arith)
  | inr c ↦
      let moved : o + 1 + n ≡ o + suc n = omega arith in
      let empty : counts o ≡ 0 = ground arith in
      rw (c, IsFound)
        (later_order n o counts (find_order n (o + 1) counts) empty
          (find_order-IsFound n (o + 1) counts))
]

-- A run that changes the counted pages: `lost` fewer and `won` more, and no panic.
abbrev Trades : ℕ → ℕ → Machine → Option (Unit {0} × Machine) → Type 0
Trades lost won m none = ⊥
Trades lost won m (some (u, m')) =
    pages_below max_order m'.free_counts + lost ≡ pages_below max_order m.free_counts + won

abbrev pub direct_map_size : ℕ
direct_map_size = u64_mod - kernel_virt_base

pow_pos : (k : ℕ) → 0 < 2 ^ k
pow_pos zero = omega arith
pow_pos (suc k) = omega (arith, pow_pos k)

double_pow : (order k : ℕ) → 2 ^ (order + suc k) ≡ 2 ^ (order + k) + 2 ^ (order + k)
double_pow order k =
    let moved : order + suc k ≡ suc (order + k) = omega arith in rw moved (omega arith)

Trades-after :
    (lost won won' : ℕ) (m m1 : Machine) (r : Option (Unit {0} × Machine))
    → pages_below max_order m1.free_counts + won ≡ pages_below max_order m.free_counts + won'
    → Trades lost won m1 r
    → Trades lost won' m r
Trades-after lost won won' m m1 none step h = h
Trades-after lost won won' m m1 (some (u, m')) step h = omega (arith, step, h)

split_block-Trades :
    (block order k : ℕ) (m : Machine)
    → order + k ≤ max_order
    → block + order_to_size (order + k) ≤ direct_map_size
    → Trades (2 ^ order) (2 ^ (order + k)) m (split_block block order k m)
unfolding split_block push_block
split_block-Trades block order zero m h place =
    let same : order + 0 ≡ order = omega arith in rw same refl
split_block-Trades block order (suc k) m h place =
    let o = order + k in
    let double : 2 ^ (order + suc k) ≡ 2 ^ o + 2 ^ o = double_pow order k in
    let exact : add64 block (order_to_size o) ≡ block + order_to_size o =
      omega (arith, place, double) in
    let nonzero : (block + order_to_size o == 0) ≡ false = ground (arith, pow_pos o) in
    let mapped : direct_mapped (block + order_to_size o) ≡ true =
      ground (arith, place, double, pow_pos o) in
    let pushed = update m.free_counts o (m.free_counts o + 1) in
    let m1 : Machine = record {
      mem = update m.mem (block + order_to_size o) (m.free_heads o);
      free_heads = update m.free_heads o (block + order_to_size o);
      free_counts = pushed;
      owners = m.owners;
    } in
    let gain =
      pages_below-update max_order o (m.free_counts o + 1) m.free_counts (omega (arith, h)) in
    rw (exact, nonzero, mapped, Trades)
      (Trades-after (2 ^ order) (2 ^ o) (2 ^ (order + suc k)) m m1 (split_block block order k m1)
        (omega (arith, gain, double))
        (split_block-Trades block order k m1 (omega (arith, h)) (omega (arith, place, double))))

-- What alloc promises: it does not panic; it hands out a block of that many pages from those that
-- are counted; or it changes nothing, and no counted page is in a block of the order or a larger one.
abbrev pub Allocated : ℕ → Machine → Option (Option ℕ × Machine) → Type 0
Allocated order m none = ⊥
Allocated order m (some (none, m')) =
    (m' ≡ m)
    × (pages_below max_order m.free_counts ≡ pages_below (min order max_order) m.free_counts)
Allocated order m (some (some block, m')) =
    pages_below max_order m'.free_counts + 2 ^ order ≡ pages_below max_order m.free_counts

split-Allocated :
    (order block : ℕ) (m : Machine) (won : ℕ) (m1 : Machine) (r : Option (Unit {0} × Machine))
    → pages_below max_order m1.free_counts + won ≡ pages_below max_order m.free_counts
    → Trades (2 ^ order) won m1 r
    → Allocated order m (and_then r (λ u. pure (some block)))
split-Allocated order block m won m1 none step h = h
split-Allocated order block m won m1 (some (u, m')) step h = omega (arith, step, h)

one_less : (c p : ℕ) → 0 < c → (c - 1) * p + p ≡ c * p
one_less zero p h = absurd (omega arith)
one_less (suc c) p h = let least : suc c - 1 ≡ c = omega arith in rw least (omega arith)

pages_above :
    (n order : ℕ) (counts : ℕ → ℕ)
    → pages_below (order + (n - order)) counts ≡ pages_below order counts
    → pages_below n counts ≡ pages_below (min order n) counts
pages_above n order counts h = elim (Bool-cases (ltb order n)) [
  | inl c ↦
      let all : n ≡ order + (n - order) = ground arith in
      let least : min order n ≡ order = ground arith in
      rw least (ap (λ k. pages_below k counts) all ∙ h)
  | inr c ↦ let least : min order n ≡ n = ground arith in rw least refl
]

-- The first block of each free list that counts a block lies in the direct map.
abbrev pub IsPlaced : Machine → Type 0
IsPlaced m = (o : ℕ) → 0 < m.free_counts o → m.free_heads o + order_to_size o ≤ direct_map_size

-- In a release build, if the first block of each free list that counts one lies whole in the first
-- 2 ^ 47 bytes of physical memory, which the direct map covers, alloc of an order does not panic:
-- it returns a block, and the blocks that the free lists count then have 2 ^ order pages fewer,
-- whatever it split; or it returns none and changes nothing, and every counted page is in a block
-- of a smaller order.
pub alloc-Allocated : (order : ℕ) (m : Machine) → IsPlaced m → Allocated order m (alloc order m)
unfolding alloc pop_block
alloc-Allocated order m placed =
    go (find_order (max_order - order) order m.free_counts)
      (find_order-IsFound (max_order - order) order m.free_counts)
  where
    go :
        (r : Option ℕ)
        → IsFound (max_order - order) order m.free_counts r
        → Allocated order m (elim r [
          | none ↦ some (none, m)
          | some found ↦
              (do
                block ← pop_block found
                split_block block order (found - order)
                pure (some block))
                m
        ])
    go none h = (refl, pages_above max_order order m.free_counts h)
    go (some found) (lo, hi, counted) =
        let block = m.free_heads found in
        let counts = update m.free_counts found (m.free_counts found - 1) in
        let m1 : Machine = record m {
          free_heads = update m.free_heads found (m.mem block);
          free_counts = counts;
        } in
        let place = placed found counted in
        let head : direct_mapped block ≡ true = ground (arith, place, pow_pos found) in
        let below : found < max_order = omega (arith, lo, hi) in
        let loss =
          pages_below-update max_order found (m.free_counts found - 1) m.free_counts below in
        let one = one_less (m.free_counts found) (2 ^ found) counted in
        let back : order + (found - order) ≡ found = omega (arith, lo) in
        rw (head, Allocated)
          (split-Allocated order block m (2 ^ (order + (found - order))) m1
            (split_block block order (found - order) m1)
            (ap (λ k. pages_below max_order counts + 2 ^ k) back ∙ omega (arith, loss, one))
            (split_block-Trades block order (found - order) m1 (omega (arith, below, back))
              (subst (λ k. block + order_to_size k ≤ direct_map_size) (sym back) place)))
