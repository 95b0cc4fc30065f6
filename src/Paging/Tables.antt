-- ===== src/Paging/Tables.antt =====
-- kernel/src/paging.rs: the table of a new process, and the release of its tables.
use ferrum_os.Prelude.{ℕ, zero, suc, ◌+◌, ◌-◌, Bool, ◌&&◌, not, Option, some, if◌then◌else◌}
use ferrum_os.Machine.{page_table_pml4, M, pure, ◌>>=◌, ◌>>◌, read, write, zero_page}
use ferrum_os.Buddy
use ferrum_os.PageOwners.{track}
use ferrum_os.Paging.{on_some, is_present, is_huge, phys_addr, entry_at, alloc_page, expect_mapped}

-- `for i in from..from + n { dst.entries[i] = src.entries[i] }`
unfoldable pub copy_entries : ℕ → ℕ → ℕ → ℕ → M (Unit {0})
copy_entries zero from dst src = pure tt
copy_entries (suc n) from dst src = do
  e ← read (entry_at src from)
  write (entry_at dst from) e
  copy_entries n (from + 1) dst src

-- `PageTableManager::new_user`: the new table shares the upper half of the kernel's.
unfoldable pub new_user : ℕ → ℕ → M (Option ℕ)
unfolding alloc_page track copy_entries
new_user kernel_pml4 owner_pid = do
  found ← alloc_page
  on_some found λ pml4. do
    track pml4 0 page_table_pml4 owner_pid
    expect_mapped kernel_pml4
    zero_page pml4
    copy_entries 256 256 pml4 kernel_pml4
    pure (some pml4)

-- `free_pt`, `free_pd` and `free_pdpt`: the loops run over the entries that are left.
unfoldable pub clear_entries : ℕ → ℕ → M (Unit {0})
clear_entries zero table = pure tt
clear_entries (suc n) table = do
  e ← read (entry_at table (512 - suc n))
  if is_present e then write (entry_at table (512 - suc n)) 0 else pure tt
  clear_entries n table

unfoldable pub free_pt : ℕ → M (Unit {0})
unfolding clear_entries
free_pt table = do expect_mapped table; clear_entries 512 table; Buddy.free table 0

abbrev pub is_table : ℕ → Bool
is_table e = is_present e && not (is_huge e)

unfoldable pub free_children : ℕ → ℕ → (ℕ → M (Unit {0})) → M (Unit {0})
free_children zero table free_child = pure tt
free_children (suc n) table free_child = do
  e ← read (entry_at table (512 - suc n))
  if is_table e then free_child (phys_addr e) else pure tt
  free_children n table free_child

unfoldable pub free_pd : ℕ → M (Unit {0})
unfolding free_children free_pt
free_pd table = do expect_mapped table; free_children 512 table free_pt; Buddy.free table 0

unfoldable pub free_pdpt : ℕ → M (Unit {0})
unfolding free_children free_pd
free_pdpt table = do expect_mapped table; free_children 512 table free_pd; Buddy.free table 0

-- The lower half of the top table, emptied entry by entry.
unfoldable pub free_lower : ℕ → ℕ → M (Unit {0})
unfolding free_pdpt
free_lower zero pml4_phys = pure tt
free_lower (suc n) pml4_phys = do
  e ← read (entry_at pml4_phys (256 - suc n))
  if is_present e
      then free_pdpt (phys_addr e) >> write (entry_at pml4_phys (256 - suc n)) 0
      else pure tt
  free_lower n pml4_phys

unfoldable pub free_user_tables : ℕ → M (Unit {0})
unfolding free_lower
free_user_tables pml4_phys = do expect_mapped pml4_phys; free_lower 256 pml4_phys
