-- ===== src/Vma/Space.antt =====
-- kernel/src/vma.rs: the operations of `AddressSpace` on its areas, its page table and the memory.
-- The page table is named by the address of its top table.
use Prim.Native.Nat.{bit_or}
use ferrum_os.Prelude.{
  ℕ, zero, suc, ◌+◌, ◌-◌, ◌/◌, ◌^◌, true, false, Option, none, some, List, [], ◌∷◌, Result, ok,
  Fault, err, no_vma, out_of_memory, map_failed, vma_not_found, ltb, if◌then◌else◌, min, max,
  page_size, page_up, page_down, add64, is_some,
}
use ferrum_os.Machine.{OwnerTag, vma_anon, vma_stack, vma_heap, M, pure, ◌>>=◌, ◌>>◌, zero_page}
use ferrum_os.Buddy
use ferrum_os.PageOwners.{track, untrack}
use ferrum_os.Paging
use ferrum_os.Paging.Tables.{free_user_tables}
use ferrum_os.Vma.{VmaFlags, VmaKind, Vma, anonymous, stack, heap, add_vma, find_vma, remove_vma}
use ferrum_os.Vma.Area.{overlapping, punch_one, new_vma}

pub record AddressSpace : Type 0 where
  pub pml4_phys : ℕ
  pub vmas : List Vma
  pub owner_pid : ℕ

-- PRESENT and USER, WRITABLE if it may be written, NO_EXEC unless it may be executed
abbrev pub to_page_flags : VmaFlags → ℕ
to_page_flags f = bit_or (bit_or 5 (if f.write then 2 else 0)) (if f.exec then 0 else 2 ^ 63)

abbrev pub owner_tag : VmaKind → OwnerTag
owner_tag anonymous = vma_anon
owner_tag stack = vma_stack
owner_tag heap = vma_heap

-- An area is found and a page is at hand: record it, clear it and map it.
abbrev pub fill_page : AddressSpace → ℕ → Vma → Option ℕ → M (Result (Unit {0}))
fill_page s page_addr vma none = pure (err out_of_memory)
fill_page s page_addr vma (some phys) = do
  track phys 0 (owner_tag vma.kind) s.owner_pid
  zero_page phys
  mapped ← Paging.map_4kb s.pml4_phys page_addr phys (to_page_flags vma.flags)
  pure (if is_some mapped then ok tt else err map_failed)

unfoldable pub handle_page_fault : AddressSpace → ℕ → M (Result (Unit {0}))
unfolding find_vma Paging.translate Buddy.alloc track Paging.map_4kb
handle_page_fault s fault_addr = do
  there ← Paging.translate s.pml4_phys (page_down fault_addr)
  if is_some there then pure (ok tt) else elim (find_vma s.vmas fault_addr) [
    | none ↦ pure (err no_vma)
    | some vma ↦ Buddy.alloc 0 >>= fill_page s (page_down fault_addr) vma
  ]

-- One round of the loops that give pages back.
abbrev pub release : Option ℕ → M (Unit {0})
release none = pure tt
release (some phys) = do Buddy.free phys 0; _ ← untrack phys; pure tt

-- `while addr < end { if let Some(phys) = unmap(addr) { free; untrack }; addr += PAGE_SIZE }`
unfoldable pub release_pages : ℕ → ℕ → ℕ → ℕ → M (Unit {0})
unfolding Paging.unmap Buddy.free untrack
release_pages zero pml4_phys addr end = pure tt
release_pages (suc fuel) pml4_phys addr end = elim (ltb addr end) [
  | false ↦ pure tt
  | true ↦ do
    phys ← Paging.unmap pml4_phys addr
    release phys
    release_pages fuel pml4_phys (addr + page_size) end
]

-- enough rounds to step over `[addr, end)`
abbrev pub rounds : ℕ → ℕ → ℕ
rounds addr end = (end - addr) / page_size + 1

unfoldable pub munmap : AddressSpace → ℕ → ℕ → M (Result (Unit {0}) × AddressSpace)
unfolding remove_vma release_pages
munmap s addr size =
    let start = page_up addr in
    let end = page_up (add64 start size) in
    elim (remove_vma s.vmas start) [
      | none ↦ pure (err vma_not_found, s)
      | some (_, vmas) ↦ do
        release_pages (rounds start end) s.pml4_phys start end
        pure (ok tt, record s { vmas = vmas })
    ]

abbrev pub clear_page : ℕ → ℕ → Option ℕ → M (Unit {0})
clear_page pml4_phys addr none = pure tt
clear_page pml4_phys addr (some phys) = do
  release (some phys)
  _ ← Paging.unmap pml4_phys addr
  pure tt

-- The loop of `clear_user` over one area: it frees what `translate` finds, and unmaps it then.
unfoldable pub clear_pages : ℕ → ℕ → ℕ → ℕ → M (Unit {0})
unfolding Paging.translate Paging.unmap Buddy.free untrack
clear_pages zero pml4_phys addr end = pure tt
clear_pages (suc fuel) pml4_phys addr end = elim (ltb addr end) [
  | false ↦ pure tt
  | true ↦ do
    found ← Paging.translate pml4_phys addr
    clear_page pml4_phys addr found
    clear_pages fuel pml4_phys (addr + page_size) end
]

unfoldable pub clear_areas : ℕ → List Vma → M (Unit {0})
unfolding clear_pages
clear_areas pml4_phys [] = pure tt
clear_areas pml4_phys (v ∷ vs) = do
  clear_pages (rounds v.start v.end) pml4_phys v.start v.end
  clear_areas pml4_phys vs

unfoldable pub clear_user : AddressSpace → M AddressSpace
unfolding clear_areas
clear_user s = do clear_areas s.pml4_phys s.vmas; pure (record s { vmas = [] })

unfoldable pub release_areas : ℕ → List Vma → M (Unit {0})
unfolding release_pages
release_areas pml4_phys [] = pure tt
release_areas pml4_phys (v ∷ vs) = do
  release_pages (rounds v.start v.end) pml4_phys v.start v.end
  release_areas pml4_phys vs

unfoldable pub destroy : AddressSpace → M AddressSpace
unfolding release_areas free_user_tables Buddy.free untrack
destroy s = do
  release_areas s.pml4_phys s.vmas
  free_user_tables s.pml4_phys
  Buddy.free s.pml4_phys 0
  _ ← untrack s.pml4_phys
  pure (record s { vmas = [] })

-- The loop of `punch_hole`: each overlapped area is cut, and its pages in the hole are given back.
-- The list is the one that the error leaves, where there is one.
unfoldable pub punch_areas : ℕ → ℕ → ℕ → List Vma → List Vma → M (Option Fault × List Vma)
unfolding punch_one release_pages
punch_areas pml4_phys hole_start hole_end [] vmas = pure (none, vmas)
punch_areas pml4_phys hole_start hole_end (v ∷ vs) vmas = do
  let from = max v.start hole_start
  let clip_end = min v.end hole_end
  release_pages (rounds from clip_end) pml4_phys from clip_end
  let cut = punch_one vmas hole_start hole_end v
  λ m. elim cut.0 [
    | some e ↦ some (cut, m)
    | none ↦ punch_areas pml4_phys hole_start hole_end vs cut.1 m
  ]

-- What follows the loop: its error is returned, or else the new area is added.
abbrev pub fixed_result : AddressSpace → ℕ → Vma → Option Fault × List Vma → Result ℕ × AddressSpace
fixed_result s start vma (some e, vmas) = (err e, record s { vmas = vmas })
fixed_result s start vma (none, vmas) = elim (add_vma vmas vma) [
  | err e ↦ (err e, record s { vmas = vmas })
  | ok t ↦ (ok start, record s { vmas = t })
]

unfoldable pub mmap_fixed : AddressSpace → ℕ → ℕ → VmaFlags → VmaKind → M (Result ℕ × AddressSpace)
unfolding overlapping punch_areas add_vma
mmap_fixed s addr size flags kind = do
  let start = page_up addr
  let end = page_up (add64 start size)
  holed ← punch_areas s.pml4_phys start end (overlapping s.vmas start end) s.vmas
  pure (fixed_result s start (new_vma start end flags kind) holed)
