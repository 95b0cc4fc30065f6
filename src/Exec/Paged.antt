-- ===== src/Exec/Paged.antt =====
-- `build_argv_envp_stack` of kernel/src/syscall.rs writes through the page table of the new program, a
-- page at a time; the page table gives the physical address of each page.
use ferrum_os.Prelude.{
  ℕ, zero, suc, ◌+◌, ◌-◌, ◌%◌, min, Option, none, some, List, [], ◌∷◌, length, take, drop,
  page_size, page_down,
}
use ferrum_os.Machine.{M, panic, ◌>>=◌, Machine, ◌>>◌}
use ferrum_os.Paging.{expect_mapped, translate}
use ferrum_os.Elf.Segments.{copy_bytes}
use ferrum_os.Exec.Stack.{Frame, Start, build_argv_envp_stack}

-- The part of the bytes that lies on the page, and then the rest; a page that is not mapped is a panic.
abbrev pub on_page : Option ℕ → ℕ → List ℕ → M (Unit {0}) → M (Unit {0})
on_page none vaddr bytes rest = panic
on_page (some phys) vaddr bytes rest =
    expect_mapped phys >> copy_bytes (phys + vaddr % page_size) bytes >> rest

-- `write_bytes_via_pt`, with no more rounds than bytes; `write_u64` is the same on eight bytes, which
-- lie on one page, as its addresses are multiples of eight.
unfoldable pub write_via_pt : ℕ → ℕ → ℕ → List ℕ → M (Unit {0})
unfolding translate copy_bytes
write_via_pt fuel pml4 vaddr [] m = some (tt, m)
write_via_pt zero pml4 vaddr (b ∷ bs) m = none
write_via_pt (suc fuel) pml4 vaddr (b ∷ bs) m =
    let avail = min (page_size - vaddr % page_size) (length (b ∷ bs)) in
    let rest = write_via_pt fuel pml4 (vaddr + avail) (drop avail (b ∷ bs)) in
    (translate pml4 (page_down vaddr) >>= λ page. on_page page vaddr (take avail (b ∷ bs)) rest) m

-- The machine, if nothing has panicked
abbrev pub after : Option (Unit {0} × Machine) → Option Machine
after none = none
after (some (u, m)) = some m

abbrev pub paged_store : ℕ → Option Machine → ℕ → List ℕ → Option Machine
paged_store pml4 none vaddr bytes = none
paged_store pml4 (some m) vaddr bytes = after (write_via_pt (length bytes) pml4 vaddr bytes m)

abbrev pub built : Frame (Option Machine) → Option (ℕ × Machine)
built frame = on_machine frame.addr frame.memory
  where
    on_machine : ℕ → Option Machine → Option (ℕ × Machine)
    on_machine addr none = none
    on_machine addr (some m) = some (addr, m)

-- The builder on the machine: the first stack pointer.
unfoldable pub build_stack : ℕ → Start → M ℕ
unfolding write_via_pt build_argv_envp_stack
build_stack pml4 s m = built (build_argv_envp_stack (paged_store pml4) s (some m))
