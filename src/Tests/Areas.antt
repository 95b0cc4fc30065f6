-- ===== src/Tests/Areas.antt =====
-- Address spaces with a code area, a stack and a heap, as kernel/src/vma.rs keeps them.
use ferrum_os.Prelude.{
  ℕ, ◌≡◌, refl, true, false, none, some, List, [], ◌∷◌, arith, ok, page_up, add64,
}
use ferrum_os.Machine.{Machine, and_then}
use ferrum_os.Vma.{Vma, VmaFlags, anonymous, stack, heap, add_vma, find_vma, remove_vma}
use ferrum_os.Vma.Area.{new_vma, find_free_area, mmap, extend_heap, overlapping}
use ferrum_os.Vma.Space.{AddressSpace, mmap_fixed}
use ferrum_os.Vma.Cover.{IsSorted, area_at}
use ferrum_os.Vma.Add.{Added, add_vma-Added}
use ferrum_os.Vma.Find.{find_vma-eq-area_at, Removed, remove_vma-Removed}
use ferrum_os.Vma.Gaps.{IsLowestGap, IsAligned, find_free_area-IsLowestGap}
use ferrum_os.Vma.Mmap.{Mapped, mmap-Mapped}
use ferrum_os.Vma.Fixed.{IsFixed, release_cut, mmap_fixed-IsFixed}
use ferrum_os.Vma.Heap.{IsLastHeap, Outcome, extend_heap-Outcome}
use ferrum_os.Sched.{Process, running}
use ferrum_os.Memory.{syscall_brk}
use ferrum_os.Memory.Brk.{Broken, syscall_brk-Broken}

abbrev rw_flags : VmaFlags
rw_flags = record { read = true; write = true; exec = false }

abbrev code : Vma
code = new_vma 0x400000 0x402000 rw_flags anonymous

abbrev program_heap : Vma
program_heap = new_vma 0x500000 0x501000 rw_flags heap

abbrev mapped : Vma
mapped = new_vma 0x600000000000 0x600000004000 rw_flags anonymous

abbrev areas : List Vma
areas = code ∷ program_heap ∷ mapped ∷ []

areas-IsSorted : IsSorted 0 areas
areas-IsSorted =
    (omega arith, omega arith, (omega arith, omega arith, (omega arith, omega arith, tt)))

abbrev behind_code : Vma
behind_code = new_vma 0x402000 0x403000 rw_flags anonymous

add_vma-Added_example : Added 0 areas behind_code (add_vma areas behind_code)
add_vma-Added_example = add_vma-Added 0 areas behind_code (omega arith) (omega arith) areas-IsSorted

find_vma-eq-area_at_example : find_vma areas 0x500800 ≡ area_at areas 0x500800
find_vma-eq-area_at_example = find_vma-eq-area_at 0 areas 0x500800 areas-IsSorted

find_free_area-IsLowestGap_example : IsLowestGap areas 0x2000 (find_free_area areas 0x2000)
find_free_area-IsLowestGap_example =
    find_free_area-IsLowestGap areas 0x2000 (omega arith) areas-IsSorted

areas-IsAligned : IsAligned areas
areas-IsAligned = (refl, (refl, (refl, tt)))

mmap-Mapped_example : Mapped areas 5000 rw_flags anonymous (mmap areas 0 5000 rw_flags anonymous)
mmap-Mapped_example =
    mmap-Mapped areas 5000 rw_flags anonymous (omega arith) (omega arith) areas-IsSorted
      areas-IsAligned

mapped_here : area_at areas mapped.start ≡ some mapped
unfolding area_at
mapped_here = refl

heap_last : IsLastHeap areas program_heap
unfolding area_at
heap_last = (
  (refl, refl, refl),
  (λ e. absurd (ground arith), (λ e. omega arith, (λ e. absurd (ground arith), tt))),
)

extend_heap-Outcome_example :
    Outcome areas program_heap 0x510000 (extend_heap areas 0x500000 0x510000)
extend_heap-Outcome_example =
    extend_heap-Outcome areas 0x500000 0x510000 program_heap areas-IsSorted heap_last (omega arith)

remove_vma-Removed_example : Removed 0 areas 0x500000 (remove_vma areas 0x500000)
remove_vma-Removed_example = remove_vma-Removed 0 areas 0x500000 areas-IsSorted

abbrev space : AddressSpace
space = record { pml4_phys = 0x100000; vmas = areas; owner_pid = 1 }

-- one page in the middle of the mapped area
abbrev hole_start : ℕ
hole_start = page_up 0x600000001000

abbrev hole_end : ℕ
hole_end = page_up (add64 hole_start 4096)

mmap_fixed-IsFixed_example :
    (t : List Vma) × IsFixed areas hole_start hole_end rw_flags stack t
    × ((m : Machine)
        → mmap_fixed space 0x600000001000 4096 rw_flags stack m
          ≡ and_then
              (release_cut 0x100000 hole_start hole_end (overlapping areas hole_start hole_end) m)
              (λ _ m'. some ((ok hole_start, record space { vmas = t }), m')))
mmap_fixed-IsFixed_example =
    mmap_fixed-IsFixed space 0x600000001000 4096 rw_flags stack (omega arith) areas-IsSorted

-- A process with these areas asks for a longer heap.
abbrev program : Process
program = record {
  pid = 1;
  parent_pid = 0;
  state = running;
  exit_code = 0;
  context = record { rbx = 0; rbp = 0; r12 = 0; r13 = 0; r14 = 0; r15 = 0; rsp = 0x8000 };
  kernel_stack_alloc = none;
  kernel_stack_top = 0x9000;
  address_space = space;
  fd_table = [];
  fs_base = 0;
  brk_start = 0x500000;
  brk_current = 0x501000;
  cwd = 47 ∷ [];
}

syscall_brk-Broken_example : Broken 0x504321 program program_heap (syscall_brk 0x504321 program)
syscall_brk-Broken_example =
    syscall_brk-Broken 0x504321 program (omega arith) program_heap areas-IsSorted heap_last
      (omega arith)
