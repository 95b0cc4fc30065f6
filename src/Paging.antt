-- ===== src/Paging.antt =====
-- kernel/src/paging.rs: the four-level page table. An entry is a 64-bit cell of a table page; entry
-- `i` of the table at `t` lies at `t + 8 * i`. A single flag is tested by its binary digit, and a
-- field is cut out by division and remainder.
pub mod Tables
pub mod Unmap
use Prim.Native.Nat.{bit_and, bit_or}
use ferrum_os.Prelude.{
  ℕ, zero, suc, ◌+◌, ◌-◌, ◌*◌, ◌/◌, ◌%◌, ◌^◌, Bool, true, false, ◌&&◌, ◌||◌, not, Option, none,
  some, ltb, leb, ◌==◌, if◌then◌else◌, page_size, add64, u64_mod,
}
use ferrum_os.Machine.{
  page_table_pml4, M, pure, panic, ◌>>=◌, ◌>>◌, read, write, zero_page, direct_mapped,
}
use ferrum_os.Buddy
use ferrum_os.PageOwners.{track}

-- the constants of `PageFlags`
abbrev pub flag_present : ℕ
flag_present = 1

abbrev pub flag_user : ℕ
flag_user = 4

abbrev pub flag_huge : ℕ
flag_huge = 128

-- all the bits that `PageFlags` names
abbrev pub known_flags : ℕ
known_flags = 2 ^ 63 + 231

abbrev pub is_present : ℕ → Bool
is_present e = e % 2 == 1

abbrev pub has_user : ℕ → Bool
has_user e = e / 4 % 2 == 1

abbrev pub is_huge : ℕ → Bool
is_huge e = e / 128 % 2 == 1

-- `self.0 & 0x000f_ffff_ffff_f000`
abbrev pub phys_addr : ℕ → ℕ
phys_addr e = e % 2 ^ 52 / page_size * page_size

-- `PageFlags::from_bits_truncate`
abbrev pub flags_of : ℕ → ℕ
flags_of e = bit_and e known_flags

unfoldable pub new_entry : ℕ → ℕ → ℕ
new_entry phys flags = bit_or phys flags

pub record VirtAddrParts : Type 0 where
  pub pml4 : ℕ
  pub pdpt : ℕ
  pub pd : ℕ
  pub pt : ℕ
  pub offset : ℕ

unfoldable pub from_u64 : ℕ → VirtAddrParts
from_u64 addr = record {
  pml4 = addr / 2 ^ 39 % 512;
  pdpt = addr / 2 ^ 30 % 512;
  pd = addr / 2 ^ 21 % 512;
  pt = addr / 2 ^ 12 % 512;
  offset = addr % 4096;
}

abbrev pub entry_at : ℕ → ℕ → ℕ
entry_at table index = table + 8 * index

-- `phys_to_virt` of a table or page: a panic where it has no address
abbrev pub expect_mapped : ℕ → M (Unit {0})
expect_mapped phys = if direct_mapped phys then pure tt else panic

abbrev pub page_at : Option ℕ → M (Option ℕ)
page_at none = pure none
page_at (some phys) = expect_mapped phys >> pure (some phys)

-- `BuddyAllocator::alloc_page`
unfoldable pub alloc_page : M (Option ℕ)
alloc_page = Buddy.alloc 0 >>= page_at

-- The two branches of `ensure_table`: a present entry gets the USER bit if it is asked for, an
-- absent one a new zeroed table.
abbrev pub keep_table : ℕ → ℕ → ℕ → M (Option ℕ)
keep_table entry e table_flags =
    if is_huge e
    then pure none
    else if has_user table_flags && not (has_user e)
    then write entry (new_entry (phys_addr e) (bit_or (flags_of e) flag_user))
      >> pure (some (phys_addr e))
    else pure (some (phys_addr e))

abbrev pub fresh_table : ℕ → ℕ → Option ℕ → M (Option ℕ)
fresh_table entry table_flags none = pure none
fresh_table entry table_flags (some phys) =
    if phys == 0
    then panic
    else zero_page phys >> write entry (new_entry phys table_flags) >> pure (some phys)

unfoldable pub ensure_table : ℕ → ℕ → M (Option ℕ)
unfolding alloc_page new_entry
ensure_table entry table_flags m =
    if is_present (m.mem entry)
    then keep_table entry (m.mem entry) table_flags m
    else (alloc_page >>= fresh_table entry table_flags) m

abbrev pub table_flags_for : ℕ → ℕ
table_flags_for flags = if has_user flags then 7 else 3

abbrev pub on_some : {A B : Type 0} → Option A → (A → M (Option B)) → M (Option B)
on_some none f = pure none
on_some (some a) f = f a

unfoldable pub map_4kb : ℕ → ℕ → ℕ → ℕ → M (Option (Unit {0}))
unfolding from_u64 ensure_table
map_4kb pml4_phys virt phys flags = do
  let parts = from_u64 virt
  let table_flags = table_flags_for flags
  expect_mapped pml4_phys
  pdpt? ← ensure_table (entry_at pml4_phys parts.pml4) table_flags
  on_some pdpt? λ pdpt. do
    expect_mapped pdpt
    pd? ← ensure_table (entry_at pdpt parts.pdpt) table_flags
    on_some pd? λ pd. do
      expect_mapped pd
      pt? ← ensure_table (entry_at pd parts.pd) table_flags
      on_some pt? λ pt. do
        expect_mapped pt
        write (entry_at pt parts.pt) (new_entry phys (bit_or flags flag_present))
        pure (some tt)

unfoldable pub map_2mb : ℕ → ℕ → ℕ → ℕ → M (Option (Unit {0}))
unfolding from_u64 ensure_table
map_2mb pml4_phys virt phys flags = do
  let parts = from_u64 virt
  let table_flags = table_flags_for flags
  expect_mapped pml4_phys
  pdpt? ← ensure_table (entry_at pml4_phys parts.pml4) table_flags
  on_some pdpt? λ pdpt. do
    expect_mapped pdpt
    pd? ← ensure_table (entry_at pdpt parts.pdpt) table_flags
    on_some pd? λ pd. do
      expect_mapped pd
      write (entry_at pd parts.pd) (new_entry phys (bit_or (bit_or flags flag_present) flag_huge))
      pure (some tt)

-- One level of a walk: the table that a present entry points to.
abbrev pub next_table : (ℕ → ℕ) → ℕ → ℕ → Option ℕ
next_table mem table index =
    let e = mem (entry_at table index) in if is_present e then some (phys_addr e) else none

-- The walk of `unmap` and `translate` down to the page-directory entry.
abbrev pub in_pd : (ℕ → ℕ) → ℕ → Option ℕ → Option ℕ
in_pd mem virt none = none
in_pd mem virt (some pd) =
    let entry = entry_at pd (from_u64 virt).pd in
    if is_present (mem entry) then some entry else none

abbrev pub in_pdpt : (ℕ → ℕ) → ℕ → Option ℕ → Option ℕ
in_pdpt mem virt none = none
in_pdpt mem virt (some pdpt) = in_pd mem virt (next_table mem pdpt (from_u64 virt).pdpt)

unfoldable pub pd_entry : (ℕ → ℕ) → ℕ → ℕ → Option ℕ
unfolding from_u64
pd_entry mem pml4_phys virt = in_pdpt mem virt (next_table mem pml4_phys (from_u64 virt).pml4)

-- the page-table entry below the page-directory entry at `d`
abbrev pub pt_entry : (ℕ → ℕ) → ℕ → ℕ → ℕ
pt_entry mem virt d = entry_at (phys_addr (mem d)) (from_u64 virt).pt

abbrev pub unmap_at : ℕ → Option ℕ → M (Option ℕ)
unmap_at virt none m = some (none, m)
unmap_at virt (some d) m =
    let entry = pt_entry m.mem virt d in
    if is_present (m.mem entry)
    then (do write entry 0; pure (some (phys_addr (m.mem entry)))) m
    else some (none, m)

-- Whether `phys_to_virt` has an address for each table of the walk down to the page directory
abbrev pub pd_mapped : Option ℕ → Bool
pd_mapped none = true
pd_mapped (some pd) = direct_mapped pd

abbrev pub pdpt_mapped : (ℕ → ℕ) → ℕ → Option ℕ → Bool
pdpt_mapped mem virt none = true
pdpt_mapped mem virt (some pdpt) =
    direct_mapped pdpt && pd_mapped (next_table mem pdpt (from_u64 virt).pdpt)

unfoldable pub tables_mapped : (ℕ → ℕ) → ℕ → ℕ → Bool
unfolding from_u64
tables_mapped mem pml4_phys virt =
    direct_mapped pml4_phys && pdpt_mapped mem virt (next_table mem pml4_phys (from_u64 virt).pml4)

-- and for the page table below the page-directory entry, which `translate` leaves aside at a 2 MiB page
abbrev pub pt_mapped : (ℕ → ℕ) → Option ℕ → Bool
pt_mapped mem none = true
pt_mapped mem (some d) = direct_mapped (phys_addr (mem d))

abbrev pub leaf_mapped : (ℕ → ℕ) → Option ℕ → Bool
leaf_mapped mem none = true
leaf_mapped mem (some d) = is_huge (mem d) || direct_mapped (phys_addr (mem d))

-- A table without an address is a panic.
unfoldable pub unmap : ℕ → ℕ → M (Option ℕ)
unfolding tables_mapped pd_entry from_u64
unmap pml4_phys virt m =
    let d = pd_entry m.mem pml4_phys virt in
    if tables_mapped m.mem pml4_phys virt && pt_mapped m.mem d then unmap_at virt d m else none

abbrev pub translate_at : (ℕ → ℕ) → ℕ → Option ℕ → Option ℕ
translate_at mem virt none = none
translate_at mem virt (some d) =
    let e = mem (pt_entry mem virt d) in
    if is_huge (mem d)
    then some (add64 (phys_addr (mem d)) (virt % 2 ^ 21))
    else if is_present e
    then some (add64 (phys_addr e) (from_u64 virt).offset)
    else none

unfoldable pub translate : ℕ → ℕ → M (Option ℕ)
unfolding tables_mapped pd_entry from_u64
translate pml4_phys virt m =
    let d = pd_entry m.mem pml4_phys virt in
    if tables_mapped m.mem pml4_phys virt && leaf_mapped m.mem d
    then some (translate_at m.mem virt d, m)
    else none

-- `map_range`; each round maps at least one 4 KiB page.
unfoldable pub map_pages : ℕ → ℕ → ℕ → ℕ → ℕ → ℕ → M (Option (Unit {0}))
unfolding map_2mb map_4kb
map_pages zero pml4_phys virt phys end flags = pure (some tt)
map_pages (suc fuel) pml4_phys virt phys end flags = elim (ltb virt end) [
  | false ↦ pure (some tt)
  | true ↦ elim ((virt % 2 ^ 21 == 0) && (phys % 2 ^ 21 == 0) && leb (2 ^ 21) (end - virt)) [
    | true ↦ do
      r ← map_2mb pml4_phys virt phys flags
      on_some r λ _. map_pages fuel pml4_phys (virt + 2 ^ 21) (phys + 2 ^ 21) end flags
    | false ↦ do
      r ← map_4kb pml4_phys virt phys flags
      on_some r λ _. map_pages fuel pml4_phys (virt + 4096) (phys + 4096) end flags
  ]
]

unfoldable pub map_range : ℕ → ℕ → ℕ → ℕ → ℕ → M (Option (Unit {0}))
unfolding map_pages
map_range pml4_phys virt_start phys_start size flags =
    if size == 0
    then pure (some tt)
    else if ltb (virt_start + size) u64_mod
    then map_pages (size / 4096 + 1) pml4_phys virt_start phys_start (virt_start + size) flags
    else pure none
