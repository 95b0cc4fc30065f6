-- ===== src/Elf.antt =====
-- kernel/src/elf.rs: the headers of an executable and the checks of `ElfLoader::new`; Segments has
-- `load`. A file is the list of its bytes; a packed struct is read at the offsets of its fields.
-- Reads through the raw pointers are not checked by the program, so here they return what bytes
-- there are.
pub mod Segments
pub mod Bounds
use Prim.Native.Nat.{bit_or}
use ferrum_os.Prelude.{
  ℕ, zero, suc, ◌+◌, ◌-◌, ◌*◌, ◌/◌, ◌%◌, ◌^◌, Bool, true, false, ◌&&◌, Option, none, some, is_some,
  List, [], ◌∷◌, ltb, leb, ◌==◌, if◌then◌else◌, length, take, drop, min, max, add64, u64_mod,
  page_size, page_down, page_up, le_word, Result, ok, err, Fault, bad_elf, segment_bounds,
  add_vma_failed, out_of_memory, map_failed,
}
use ferrum_os.Machine.{M, Machine, elf_segment, pure, ◌>>=◌, ◌>>◌, read, write, zero_page}
use ferrum_os.Buddy
use ferrum_os.PageOwners.{track}
use ferrum_os.Paging
use ferrum_os.Vma.{VmaFlags, Vma, anonymous, add_vma}
use ferrum_os.Vma.Area.{new_vma}
use ferrum_os.Vma.Space.{AddressSpace, to_page_flags}

-- the `n` bytes at an offset, as a number
unfoldable pub word_at : List ℕ → ℕ → ℕ → ℕ
unfolding le_word
word_at bytes offset n = le_word (take n (drop offset bytes))

-- `Elf64Ehdr` and `Elf64Phdr`: the fields that are read
pub record Elf64Ehdr : Type 0 where
  pub magic : ℕ  -- the first four bytes of `e_ident`
  pub class : ℕ
  pub encoding : ℕ
  pub e_type : ℕ
  pub e_machine : ℕ
  pub e_entry : ℕ
  pub e_phoff : ℕ
  pub e_phentsize : ℕ
  pub e_phnum : ℕ

pub record Elf64Phdr : Type 0 where
  pub p_type : ℕ
  pub p_flags : ℕ
  pub p_offset : ℕ
  pub p_vaddr : ℕ
  pub p_filesz : ℕ
  pub p_memsz : ℕ

abbrev pub ehdr_size : ℕ
ehdr_size = 64

abbrev pub phdr_size : ℕ
phdr_size = 56

unfoldable pub ehdr_of : List ℕ → Elf64Ehdr
unfolding word_at
ehdr_of bytes = record {
  magic = word_at bytes 0 4;
  class = word_at bytes 4 1;
  encoding = word_at bytes 5 1;
  e_type = word_at bytes 16 2;
  e_machine = word_at bytes 18 2;
  e_entry = word_at bytes 24 8;
  e_phoff = word_at bytes 32 8;
  e_phentsize = word_at bytes 54 2;
  e_phnum = word_at bytes 56 2;
}

unfoldable pub phdr_at : List ℕ → ℕ → Elf64Phdr
unfolding word_at
phdr_at bytes offset = record {
  p_type = word_at bytes offset 4;
  p_flags = word_at bytes (offset + 4) 4;
  p_offset = word_at bytes (offset + 8) 8;
  p_vaddr = word_at bytes (offset + 16) 8;
  p_filesz = word_at bytes (offset + 32) 8;
  p_memsz = word_at bytes (offset + 40) 8;
}

-- `checked_add` and `checked_mul`
abbrev pub checked : ℕ → Option ℕ
checked n = if ltb n u64_mod then some n else none

pub record ElfLoader : Type 0 where
  pub bytes : List ℕ
  pub ehdr : Elf64Ehdr

abbrev pub table_end : ℕ → Option ℕ → Option ℕ
table_end phoff none = none
table_end phoff (some size) = checked (phoff + size)

abbrev pub with_table : ElfLoader → Option ℕ → Result ElfLoader
with_table loader none = err bad_elf
with_table loader (some phdr_end) =
    if ltb (length loader.bytes) phdr_end then err bad_elf else ok loader

-- the magic number, 64 bits, little-endian, ET_EXEC and EM_X86_64
abbrev pub is_executable : Elf64Ehdr → Bool
is_executable h =
    h.magic == 0x464c457f && h.class == 2 && h.encoding == 1 && h.e_type == 2 && h.e_machine == 62

-- `ElfLoader::new`
unfoldable pub new_loader : List ℕ → Result ElfLoader
unfolding ehdr_of
new_loader bytes =
    let h = ehdr_of bytes in
    if ltb (length bytes) ehdr_size
    then err bad_elf
    else if is_executable h
    then (if ltb h.e_phentsize phdr_size
        then err bad_elf
        else with_table (record { bytes = bytes; ehdr = h })
            (table_end h.e_phoff (checked (h.e_phnum * h.e_phentsize))))
    else err bad_elf
