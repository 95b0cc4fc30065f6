-- ===== src/Tests/Images.antt =====
-- A small archive of kernel/src/initramfs.rs, a small executable of kernel/src/elf.rs, a run of
-- `IrqMutex` of kernel/src/spinlock.rs, a block of kernel/src/allocator.rs and the page tables of
-- kernel/src/paging.rs for one page.
use ferrum_os.Prelude.{
  ℕ, Bool-cases, inl, inr, ◌==◌, if◌then◌else◌, ◌≡◌, ◌+◌, refl, Bool, true, false, some, List, [],
  ◌∷◌, ◌++◌, arith, replicate,
}
use ferrum_os.Machine.{Machine}
use ferrum_os.Buddy
use ferrum_os.Buddy.Pages.{IsPlaced, Allocated, alloc-Allocated}
use ferrum_os.Paging.{pd_entry, unmap}
use ferrum_os.Paging.Unmap.{IsSmall, Unmapped, unmap-Unmapped}
use ferrum_os.Ramfs.{Ramfs}
use ferrum_os.Initramfs.{newc_magic, extract}
use ferrum_os.Initramfs.Bounds.{IsExtracted, extract-IsExtracted}
use ferrum_os.Elf.{Elf64Phdr}
use ferrum_os.Elf.Segments.{window}
use ferrum_os.Elf.Bounds.{copied_from, segment_byte, window-exact}
use ferrum_os.Locks.{
  Processors, ask, disable, win, pick, init, Reach, start, later, at_index, asked, spinning,
  holding,
}
use ferrum_os.Locks.Exclusion.{exclusion}

-- one header, of a file of no bytes with a name of one byte
abbrev archive : List ℕ
archive =
    newc_magic
    ++ (replicate 8 48
        ++ (48 ∷ 48 ∷ 48 ∷ 48 ∷ 56 ∷ 48 ∷ 48 ∷ 48 ∷ []
            ++ (replicate 79 48 ++ (49 ∷ replicate 8 48 ++ (97 ∷ 0 ∷ 0 ∷ [])))))

abbrev no_files : Ramfs
no_files = record { entries = []; nodes = [] }

extract-IsExtracted_example : IsExtracted (extract (λ bytes. some bytes) archive no_files)
extract-IsExtracted_example =
    extract-IsExtracted (λ bytes. some bytes) archive (omega arith) no_files

-- a header and one program header
abbrev image : List ℕ
image =
    127 ∷ 69 ∷ 76 ∷ 70 ∷ 2 ∷ 1 ∷ replicate 10 0
    ++ (2 ∷ 0 ∷ 62 ∷ 0 ∷ replicate 12 0
        ++ (64 ∷ replicate 21 0 ++ (56 ∷ 0 ∷ 1 ∷ 0 ∷ replicate 62 0)))

-- 16 bytes of the file, from its byte 120 on, at an address in the middle of a page
abbrev segment : Elf64Phdr
segment = record {
  p_type = 1;
  p_flags = 5;
  p_offset = 120;
  p_vaddr = 0x400100;
  p_filesz = 16;
  p_memsz = 32;
}

window-exact_example :
    copied_from (window segment 0x400000) 0x104 ≡ segment_byte segment (0x400000 + 0x104)
window-exact_example =
    window-exact 0x400000 0x104 segment (omega arith) (omega arith) (omega arith) (omega arith)

abbrev interrupts_on : ℕ → Bool
interrupts_on i = true

abbrev s0 : Processors
s0 = init 0 interrupts_on

abbrev s1 : Processors
s1 = record { mutex = s0.mutex; irq = at_index s0.irq 0 true; pc = at_index s0.pc 0 (asked true) }

abbrev s2 : Processors
s2 = record {
  mutex = s1.mutex;
  irq = at_index s1.irq 0 false;
  pc = at_index s1.pc 0 (spinning true);
}

abbrev s3 : Processors
s3 = record {
  mutex = record { locked = true; value = 0 };
  irq = at_index s2.irq 0 false;
  pc = at_index s2.pc 0 (holding true);
}

locked-Reach : Reach 0 interrupts_on s3
locked-Reach =
    later {s = s2} (later {s = s1} (later start (pick 0 ask)) (pick 0 disable)) (pick 0 (win refl))

exclusion_example : (◌≡◌ {A = ℕ} 0 0) × (s3.mutex.locked ≡ true) × (s3.irq 0 ≡ false)
exclusion_example = exclusion locked-Reach 0 0 refl refl

-- one free block of order 1 at address 8192
abbrev one_block : Machine
one_block = record {
  mem = λ a. 0;
  free_heads = λ o. if o == 1 then 8192 else 0;
  free_counts = λ o. if o == 1 then 1 else 0;
  owners = [];
}

one_block-IsPlaced : IsPlaced one_block
one_block-IsPlaced o h = elim (Bool-cases (o == 1)) [
  | inl c ↦ let one : o ≡ 1 = ground arith in rw c (rw one (omega arith))
  | inr c ↦ absurd (ground (arith, h, c))
]

alloc-Allocated_example : Allocated 0 one_block (Buddy.alloc 0 one_block)
alloc-Allocated_example = alloc-Allocated 0 one_block one_block-IsPlaced

-- Tables at 4096, 8192, 12288 and 16384 map address 0 to the page at 65536.
abbrev one_page : Machine
one_page = record {
  mem = λ a.
      if a == 4096
      then 8199
      else if a == 8192
      then 12295
      else if a == 12288
      then 16391
      else if a == 16384
      then 65543
      else 0;
  free_heads = λ o. 0;
  free_counts = λ o. 0;
  owners = [];
}

one_page-IsSmall : IsSmall one_page.mem (pd_entry one_page.mem 4096 0)
unfolding pd_entry
one_page-IsSmall = refl

unmap-Unmapped_example : Unmapped 4096 0 one_page (unmap 4096 0 one_page)
unmap-Unmapped_example = unmap-Unmapped 4096 0 one_page one_page-IsSmall
