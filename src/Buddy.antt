-- ===== src/Buddy.antt =====
-- kernel/src/allocator.rs: the buddy allocator over intrusive free lists. The first cell of a free
-- block holds the address of the next free block of its order.
pub mod Pages
use Prim.Native.Nat.{bit_xor}
use ferrum_os.Prelude.{
  ℕ, zero, suc, ◌+◌, ◌-◌, ◌*◌, ◌/◌, ◌%◌, ◌^◌, Bool, true, false, ◌&&◌, Option, none, some, ltb, leb,
  ◌==◌, if◌then◌else◌, min, page_size, page_up, page_down, add64,
}
use ferrum_os.Machine.{Machine, M, pure, panic, ◌>>=◌, ◌>>◌, update, read, write, direct_mapped}

abbrev pub max_order : ℕ
max_order = 11

abbrev pub order_to_size : ℕ → ℕ
order_to_size order = page_size * 2 ^ order

unfoldable pub buddy_of : ℕ → ℕ → ℕ
buddy_of addr order = bit_xor (addr / page_size) (2 ^ order) * page_size

abbrev pub set_head : ℕ → ℕ → M (Unit {0})
set_head order addr m = some (tt, record m { free_heads = update m.free_heads order addr })

abbrev pub set_count : ℕ → ℕ → M (Unit {0})
set_count order n m = some (tt, record m { free_counts = update m.free_counts order n })

abbrev pub head_of : ℕ → M ℕ
head_of order m = some (m.free_heads order, m)

abbrev pub count_of : ℕ → M ℕ
count_of order m = some (m.free_counts order, m)

abbrev pub read_next : ℕ → M ℕ
read_next addr = if direct_mapped addr then read addr else panic

abbrev pub write_next : ℕ → ℕ → M (Unit {0})
write_next addr next = if direct_mapped addr then write addr next else panic

unfoldable pub push_block : ℕ → ℕ → M (Unit {0})
push_block addr order = if addr == 0 then panic else do
  head ← head_of order
  write_next addr head
  set_head order addr
  n ← count_of order
  set_count order (n + 1)

unfoldable pub pop_block : ℕ → M ℕ
pop_block order = do
  addr ← head_of order
  next ← read_next addr
  set_head order next
  n ← count_of order
  set_count order (n - 1)
  pure addr

-- `(order..MAX_ORDER).find(|&o| self.free_counts[o] > 0)`, over the orders that are left
unfoldable pub find_order : ℕ → ℕ → (ℕ → ℕ) → Option ℕ
find_order zero order counts = none
find_order (suc n) order counts =
    if ltb 0 (counts order) then some order else find_order n (order + 1) counts

-- The loop of `alloc`: from order `order + k` down to `order` the upper halves go back.
unfoldable pub split_block : ℕ → ℕ → ℕ → M (Unit {0})
unfolding push_block
split_block block order zero = pure tt
split_block block order (suc k) = do
  push_block (add64 block (order_to_size (order + k))) (order + k)
  split_block block order k

unfoldable pub alloc : ℕ → M (Option ℕ)
unfolding find_order pop_block split_block
alloc order m = elim (find_order (max_order - order) order m.free_counts) [
  | none ↦ some (none, m)
  | some found ↦
      (do block ← pop_block found; split_block block order (found - order); pure (some block)) m
]

-- Unlinks `cur`: the link behind it goes to the block before it, or to the head.
abbrev pub unlink : ℕ → Option ℕ → ℕ → M (Unit {0})
unlink order (some p) next = write_next p next
unlink order none next = set_head order next

-- The walk of `remove_from_list`. It ends at the end of the list; one round more than the list has
-- blocks is enough.
unfoldable pub remove_walk : ℕ → ℕ → ℕ → Option ℕ → ℕ → M Bool
remove_walk zero target order prev cur m = none
remove_walk (suc fuel) target order prev cur m = elim (cur == 0) [
  | true ↦ some (false, m)
  | false ↦ elim (direct_mapped cur) [
    | false ↦ none
    | true ↦ elim (cur == target) [
      | true ↦
          (do unlink order prev (m.mem cur); n ← count_of order; set_count order (n - 1); pure true)
            m
      | false ↦ remove_walk fuel target order (some cur) (m.mem cur) m
    ]
  ]
]

unfoldable pub remove_from_list : ℕ → ℕ → M Bool
unfolding remove_walk
remove_from_list addr order m =
    remove_walk (m.free_counts order + 1) addr order none (m.free_heads order) m

-- The loop of `free`, over the merges that are left below the largest order.
unfoldable pub free_loop : ℕ → ℕ → ℕ → M (Unit {0})
unfolding remove_from_list push_block buddy_of
free_loop zero addr order = push_block addr order
free_loop (suc n) addr order = do
  removed ← remove_from_list (buddy_of addr order) order
  λ m. elim removed [
    | true ↦ free_loop n (min addr (buddy_of addr order)) (order + 1) m
    | false ↦ push_block addr order m
  ]

unfoldable pub free : ℕ → ℕ → M (Unit {0})
unfolding free_loop
free addr order = free_loop (max_order - 1 - order) addr order

-- `(0..MAX_ORDER).rev().find(…).unwrap_or(0)`, over the orders below `n`
unfoldable pub max_order_for : ℕ → ℕ → ℕ → ℕ
max_order_for zero addr remaining = 0
max_order_for (suc o) addr remaining =
    if leb (order_to_size o) remaining && (addr / page_size % 2 ^ o == 0)
    then o
    else max_order_for o addr remaining

-- The loop of `add_region`; each round takes at least one page.
unfoldable pub add_blocks : ℕ → ℕ → ℕ → M (Unit {0})
unfolding max_order_for push_block
add_blocks zero addr end = pure tt
add_blocks (suc fuel) addr end = elim (leb (addr + page_size) end) [
  | true ↦
      let order = max_order_for max_order addr (end - addr) in
      do push_block addr order; add_blocks fuel (addr + order_to_size order) end
  | false ↦ pure tt
]

-- `check_metadata_integrity` on one order: the length of the walk is the count. This is a release build:
-- the checks behind `debug_assertions` in `alloc`, `free` and `pop_block` are not compiled.
unfoldable pub walk_length : ℕ → (ℕ → ℕ) → ℕ → Option ℕ
walk_length zero mem addr = if addr == 0 then some 0 else none
walk_length (suc fuel) mem addr =
    let rest = walk_length fuel mem (mem addr) in
    if addr == 0
    then some 0
    else if direct_mapped addr
    then elim rest [ none ↦ none | some n ↦ some (suc n) ]
    else none

abbrev pub order_intact : Machine → ℕ → Bool
order_intact m order = elim (walk_length (m.free_counts order) m.mem (m.free_heads order)) [
  | none ↦ false
  | some seen ↦ seen == m.free_counts order
]

unfoldable pub check_orders : ℕ → Machine → Bool
unfolding walk_length
check_orders zero m = true
check_orders (suc n) m = order_intact m n && check_orders n m

unfoldable pub check_metadata_integrity : M (Unit {0})
unfolding check_orders
check_metadata_integrity m = if check_orders max_order m then some (tt, m) else none

unfoldable pub add_region : ℕ → ℕ → M (Unit {0})
unfolding add_blocks check_metadata_integrity
add_region base size =
    let start = page_up base in
    let end = page_down (add64 base size) in
    if leb end start
    then pure tt
    else do add_blocks ((end - start) / page_size + 1) start end; check_metadata_integrity
