-- ===== src/Elf/Bounds.antt =====
-- kernel/src/elf.rs: the raw reads stay in the file, and the copies stay in the page.
use ferrum_os.Prelude.{
  if◌then◌else◌, ℕ, ◌+◌, ◌-◌, ◌*◌, ◌^◌, ◌≤◌, ◌<◌, ◌≡◌, true, ◌&&◌, Option, none, some, List, ltb,
  leb, length, min, max, add64, page_size, arith, Bool-cases, inl, inr, Result, ok, err,
}
use ferrum_os.Elf.{Elf64Phdr, ehdr_size, phdr_size, ElfLoader, is_executable}
use ferrum_os.Elf.Segments.{Window, window}

-- What `ElfLoader::new` promises of the loader that it returns.
abbrev pub Checked : List ℕ → Result ElfLoader → Type 0
Checked bytes (err e) = Unit {0}
Checked bytes (ok loader) =
    (loader.bytes ≡ bytes)
    × (ehdr_size ≤ length bytes)
    × (is_executable loader.ehdr ≡ true)
    × ((i : ℕ)
        → i < loader.ehdr.e_phnum
        → loader.ehdr.e_phoff + i * loader.ehdr.e_phentsize + phdr_size ≤ length bytes)

-- A file area that ends in the file, and fields of 64 bits.
abbrev pub IsInFile : ℕ → Elf64Phdr → Type 0
IsInFile n phdr = (phdr.p_offset + phdr.p_filesz ≤ n) × (n < 2 ^ 63) × (phdr.p_vaddr < 2 ^ 64)

-- If the segment's data ends within a file of fewer than 2 ^ 63 bytes and the addresses are below
-- 2 ^ 64, the copy into a page stays in the page and reads within the file, even if the segment's
-- end wraps around.
pub window-inside :
    (n page_va : ℕ) (phdr : Elf64Phdr)
    → IsInFile n phdr
    → page_va < 2 ^ 64
    → let w = window phdr page_va in
      (w.page_offset + w.len ≤ page_size) × (w.file_start + w.len ≤ n)
unfolding window
window-inside n page_va phdr f small =
    let from = max page_va phdr.p_vaddr in
    let to = min (add64 page_va page_size) (add64 phdr.p_vaddr phdr.p_filesz) in
    elim (Bool-cases (ltb from to)) [
      | inl c ↦
          let lt : from < to = ground arith in rw c (omega (arith, lt, f), omega (arith, lt, f))
      | inr c ↦ rw c (omega arith, omega arith)
    ]

-- Where in the file byte `k` of a page comes from, and where the byte at an address of the segment
-- does.
abbrev pub copied_from : Window → ℕ → Option ℕ
copied_from w k =
    if leb w.page_offset k && ltb k (w.page_offset + w.len)
    then some (w.file_start + (k - w.page_offset))
    else none

abbrev pub segment_byte : Elf64Phdr → ℕ → Option ℕ
segment_byte phdr a =
    if leb phdr.p_vaddr a && ltb a (phdr.p_vaddr + phdr.p_filesz)
    then some (phdr.p_offset + (a - phdr.p_vaddr))
    else none

-- If the end of the page, of the segment's file data in memory and of its data in the file lie
-- below 2 ^ 64, the window that is computed for a page of a segment gives each byte of the page
-- the place in the file of the byte that the segment has at its address, and no place to the bytes
-- at which the segment has no file data.
pub window-exact :
    (page_va k : ℕ) (phdr : Elf64Phdr)
    → page_va + page_size < 2 ^ 64
    → phdr.p_vaddr + phdr.p_filesz < 2 ^ 64
    → phdr.p_offset + phdr.p_filesz < 2 ^ 64
    → k < page_size
    → copied_from (window phdr page_va) k ≡ segment_byte phdr (page_va + k)
unfolding window
window-exact page_va k phdr fits segment file hi =
    let from = max page_va phdr.p_vaddr in
    let to = min (add64 page_va page_size) (add64 phdr.p_vaddr phdr.p_filesz) in
    elim (Bool-cases (ltb from to)) [ inl c ↦ rw c (ground arith) | inr c ↦ rw c (ground arith) ]
