-- ===== src/Heap.antt =====
-- kernel/src/heap.rs: the kernel's heap, with a free list for each size of object and whole pages for
-- larger requests. A pointer is a physical address, as in Machine, and 0 is the null pointer.
pub mod Sizes
use ferrum_os.Prelude.{
  ℕ, zero, suc, ◌+◌, ◌-◌, ◌*◌, ◌/◌, ◌^◌, Bool, true, false, Option, none, some, List, [], ◌∷◌, ltb,
  leb, ◌==◌, if◌then◌else◌, max, page_size,
}
use ferrum_os.Machine.{M, pure, panic, ◌>>=◌, ◌>>◌, update, read, write, zero_page}
use ferrum_os.Buddy

abbrev pub slab_sizes : List ℕ
slab_sizes = 8 ∷ 16 ∷ 32 ∷ 64 ∷ 128 ∷ 256 ∷ 512 ∷ 1024 ∷ 2048 ∷ 4096 ∷ []

-- the free list of each `SlabCache`, by its index
abbrev pub KernelHeap : Type 0
KernelHeap = ℕ → ℕ

-- the size of the objects of slab `i`
abbrev pub object_size : ℕ → ℕ
object_size i = 8 * 2 ^ i

-- `SLAB_SIZES.iter().position(|&s| s >= size)`, over the sizes from index `i` on
unfoldable pub position : ℕ → ℕ → List ℕ → Option ℕ
position size i [] = none
position size i (s ∷ ss) = if leb size s then some i else position size (i + 1) ss

unfoldable pub size_to_slab : ℕ → Option ℕ
unfolding position
size_to_slab size = position size 0 slab_sizes

-- The loop of `pages_to_order`; `pages` is below 2 ^ 64.
unfoldable pub order_from : ℕ → ℕ → ℕ → ℕ
order_from zero order pages = order
order_from (suc fuel) order pages =
    let rest = order_from fuel (order + 1) pages in if ltb (2 ^ order) pages then rest else order

unfoldable pub pages_to_order : ℕ → ℕ
unfolding order_from
pages_to_order pages = order_from 64 0 pages

-- The loop of `grow` from `offset` on: the objects of the page behind the first, each put at the head
-- of the list, which is returned.
unfoldable pub link_objects : ℕ → ℕ → ℕ → ℕ → ℕ → M ℕ
link_objects zero size base offset head = pure head
link_objects (suc fuel) size base offset head = elim (leb (offset + size) page_size) [
  | true ↦ do
    write (base + offset) head
    link_objects fuel size base (offset + size) (base + offset)
  | false ↦ pure head
]

abbrev pub grown : KernelHeap → ℕ → Option ℕ → M (ℕ × KernelHeap)
grown heap i none = pure (0, heap)
grown heap i (some base) = do
  zero_page base
  head ← link_objects 512 (object_size i) base (object_size i) (heap i)
  pure (base, update heap i head)

unfoldable pub slab_alloc : KernelHeap → ℕ → M (ℕ × KernelHeap)
unfolding link_objects Buddy.alloc
slab_alloc heap i =
    if heap i == 0
    then (do page ← Buddy.alloc 0; grown heap i page)
    else (do next ← read (heap i); pure (heap i, update heap i next))

unfoldable pub slab_free : KernelHeap → ℕ → ℕ → M KernelHeap
slab_free heap i ptr = do write ptr (heap i); pure (update heap i ptr)

-- `size.div_ceil(PAGE_SIZE)`
abbrev pub pages_of : ℕ → ℕ
pages_of size = (size + (page_size - 1)) / page_size

abbrev pub block_of : KernelHeap → Option ℕ → M (ℕ × KernelHeap)
block_of heap none = pure (0, heap)
block_of heap (some block) = pure (block, heap)

abbrev pub alloc_in : KernelHeap → ℕ → Option ℕ → M (ℕ × KernelHeap)
alloc_in heap size (some i) = slab_alloc heap i
alloc_in heap size none = do
  block ← Buddy.alloc (pages_to_order (pages_of size))
  block_of heap block

abbrev pub dealloc_in : KernelHeap → ℕ → ℕ → Option ℕ → M KernelHeap
dealloc_in heap ptr size (some i) = slab_free heap i ptr
dealloc_in heap ptr size none = do Buddy.free ptr (pages_to_order (pages_of size)); pure heap

abbrev pub not_null : ℕ × KernelHeap → M (ℕ × KernelHeap)
not_null (ptr, heap) = if ptr == 0 then panic else pure (ptr, heap)

-- `GlobalAlloc::alloc` and `dealloc` of `LockedHeap`, for a layout of that size and alignment
unfoldable pub heap_alloc : KernelHeap → ℕ → ℕ → M (ℕ × KernelHeap)
unfolding size_to_slab pages_to_order slab_alloc Buddy.alloc
heap_alloc heap size align = do
  let need = max (max size align) 8
  r ← alloc_in heap need (size_to_slab need)
  not_null r

unfoldable pub heap_dealloc : KernelHeap → ℕ → ℕ → ℕ → M KernelHeap
unfolding size_to_slab pages_to_order slab_free Buddy.free
heap_dealloc heap ptr size align =
    let need = max (max size align) 8 in dealloc_in heap ptr need (size_to_slab need)
