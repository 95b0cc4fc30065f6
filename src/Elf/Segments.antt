-- ===== src/Elf/Segments.antt =====
-- `ElfLoader::load` of kernel/src/elf.rs and `AddressSpace::load_elf` of kernel/src/vma.rs: the
-- segments of an executable, copied into fresh pages.
use ferrum_os.Prelude.{
  ℕ, zero, suc, ◌+◌, ◌-◌, ◌*◌, ◌/◌, ◌%◌, ◌^◌, Option, none, some, is_some, List, [], ◌∷◌, ltb, ◌==◌,
  if◌then◌else◌, length, take, drop, min, max, add64, u64_mod, page_size, page_down, page_up,
  Result, ok, err, segment_bounds, add_vma_failed, out_of_memory, map_failed,
}
use ferrum_os.Machine.{M, elf_segment, pure, ◌>>=◌, ◌>>◌, read, write, zero_page}
use ferrum_os.Buddy
use ferrum_os.PageOwners.{track}
use ferrum_os.Paging
use ferrum_os.Vma.{VmaFlags, Vma, anonymous, add_vma}
use ferrum_os.Vma.Area.{new_vma}
use ferrum_os.Vma.Space.{AddressSpace, to_page_flags}
use ferrum_os.Elf.{Elf64Phdr, phdr_at, checked, ElfLoader, new_loader}

-- bits 4, 2 and 1 of `p_flags`
abbrev pub pflags_to_vma : ℕ → VmaFlags
pflags_to_vma p_flags = record {
  read = p_flags / 4 % 2 == 1;
  write = p_flags / 2 % 2 == 1;
  exec = p_flags % 2 == 1;
}

-- `a - b` on `u64`
abbrev pub sub64 : ℕ → ℕ → ℕ
sub64 a b = (a + u64_mod - b) % u64_mod

-- What of a page is copied from the file: where in the page, from where in the file, and how much.
pub record Window : Type 0 where
  pub page_offset : ℕ
  pub file_start : ℕ
  pub len : ℕ

unfoldable pub window : Elf64Phdr → ℕ → Window
window phdr page_va =
    let from = max page_va phdr.p_vaddr in
    let to = min (add64 page_va page_size) (add64 phdr.p_vaddr phdr.p_filesz) in
    if ltb from to
    then record {
      page_offset = from - page_va;
      file_start = add64 phdr.p_offset (from - phdr.p_vaddr);
      len = to - from;
    }
    else record { page_offset = 0; file_start = 0; len = 0 }

-- One byte of a 64-bit cell.
abbrev pub poke : ℕ → ℕ → M (Unit {0})
poke addr b = do
  let cell = addr / 8 * 8
  let weight = 256 ^ (addr % 8)
  old ← read cell
  write cell (old / (weight * 256) * (weight * 256) + b * weight + old % weight)

-- `copy_nonoverlapping` from the file to a page
unfoldable pub copy_bytes : ℕ → List ℕ → M (Unit {0})
copy_bytes addr [] = pure tt
copy_bytes addr (b ∷ bs) = do poke addr b; copy_bytes (addr + 1) bs

-- the bytes of a window
abbrev pub window_bytes : List ℕ → Window → List ℕ
window_bytes bytes w = take w.len (drop w.file_start bytes)

abbrev pub fill_segment_page :
    AddressSpace → List ℕ → Elf64Phdr → ℕ → Option ℕ → M (Result (Unit {0}))
fill_segment_page s bytes phdr page_va none = pure (err out_of_memory)
fill_segment_page s bytes phdr page_va (some phys) = do
  track phys 0 elf_segment s.owner_pid
  zero_page phys
  let w = window phdr page_va
  copy_bytes (phys + w.page_offset) (window_bytes bytes w)
  mapped ← Paging.map_4kb s.pml4_phys page_va phys (to_page_flags (pflags_to_vma phdr.p_flags))
  pure (if is_some mapped then ok tt else err map_failed)

abbrev pub unless_err : Result (Unit {0}) → M (Result (Unit {0})) → M (Result (Unit {0}))
unless_err (ok u) rest = rest
unless_err (err e) rest = pure (err e)

-- `for page_idx in 0..map_pages`, of which the pages from `page_va` on are left
unfoldable pub fill_segment : ℕ → AddressSpace → List ℕ → Elf64Phdr → ℕ → M (Result (Unit {0}))
unfolding window copy_bytes track Buddy.alloc Paging.map_4kb
fill_segment zero s bytes phdr page_va = pure (ok tt)
fill_segment (suc n) s bytes phdr page_va = do
  page ← Buddy.alloc 0
  filled ← fill_segment_page s bytes phdr page_va page
  unless_err filled (fill_segment n s bytes phdr (add64 page_va page_size))

-- The segment's area is registered; its pages follow.
abbrev pub with_area :
    AddressSpace
    → List ℕ
    → Elf64Phdr
    → Vma
    → Result (List Vma)
    → M (Result (Unit {0}) × AddressSpace)
with_area s bytes phdr vma (err e) = pure (err add_vma_failed, s)
with_area s bytes phdr vma (ok vmas) = do
  let s' = record s { vmas = vmas }
  filled ← fill_segment (sub64 vma.end vma.start / page_size) s' bytes phdr vma.start
  pure (filled, s')

abbrev pub segment_area : Elf64Phdr → Vma
segment_area phdr =
    new_vma (page_down phdr.p_vaddr) (page_up (add64 phdr.p_vaddr phdr.p_memsz))
      (pflags_to_vma phdr.p_flags) anonymous

abbrev pub in_file :
    AddressSpace → List ℕ → Elf64Phdr → Option ℕ → M (Result (Unit {0}) × AddressSpace)
in_file s bytes phdr none = pure (err segment_bounds, s)
in_file s bytes phdr (some file_end) =
    if ltb (length bytes) file_end
    then pure (err segment_bounds, s)
    else with_area s bytes phdr (segment_area phdr) (add_vma s.vmas (segment_area phdr))

-- one round of `load`; 1 is PT_LOAD
unfoldable pub load_segment :
    AddressSpace → List ℕ → Elf64Phdr → M (Result (Unit {0}) × AddressSpace)
unfolding fill_segment add_vma
load_segment s bytes phdr =
    if phdr.p_type == 1
    then (if phdr.p_memsz == 0
        then pure (ok tt, s)
        else in_file s bytes phdr (checked (phdr.p_offset + phdr.p_filesz)))
    else pure (ok tt, s)

abbrev pub next_segment :
    Result (Unit {0}) × AddressSpace
    → (AddressSpace → M (Result (Unit {0}) × AddressSpace))
    → M (Result (Unit {0}) × AddressSpace)
next_segment (ok u, s) rest = rest s
next_segment (err e, s) rest = pure (err e, s)

-- `n` headers are left, and the next is number `i`.
unfoldable pub load_segments :
    ℕ → ℕ → ElfLoader → AddressSpace → M (Result (Unit {0}) × AddressSpace)
unfolding load_segment phdr_at
load_segments zero i loader s = pure (ok tt, s)
load_segments (suc n) i loader s = do
  let h = loader.ehdr
  r ← load_segment s loader.bytes (phdr_at loader.bytes (h.e_phoff + i * h.e_phentsize))
  next_segment r (load_segments n (suc i) loader)

abbrev pub entry_of : ElfLoader → Result (Unit {0}) × AddressSpace → Result ℕ × AddressSpace
entry_of loader (ok u, s) = (ok loader.ehdr.e_entry, s)
entry_of loader (err e, s) = (err e, s)

unfoldable pub load : ElfLoader → AddressSpace → M (Result ℕ × AddressSpace)
unfolding load_segments
load loader s = do r ← load_segments loader.ehdr.e_phnum 0 loader s; pure (entry_of loader r)

abbrev pub load_with : AddressSpace → Result ElfLoader → M (Result ℕ × AddressSpace)
load_with s (err e) = pure (err e, s)
load_with s (ok loader) = load loader s

unfoldable pub load_elf : AddressSpace → List ℕ → M (Result ℕ × AddressSpace)
unfolding new_loader load
load_elf s bytes = load_with s (new_loader bytes)
