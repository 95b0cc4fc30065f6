-- ===== src/Spawn/Copied.antt =====
-- `Process::fork` of kernel/src/process.rs: the areas of the child, and the child as a whole.
use ferrum_os.Prelude.{
  ℕ, ◌≤◌, ◌<◌, ◌≡◌, refl, ◌∙◌, true, Option, none, some, List, [], ◌∷◌, arith, Result, ok, err,
  if◌then◌else◌, Bool-cases, inl, inr,
}
use ferrum_os.Machine.{proc_stack, Machine, ◌>>◌, Unless, Unless-and_then, Unless-map, Unless-bind}
use ferrum_os.Buddy
use ferrum_os.PageOwners.{track}
use ferrum_os.Paging.Tables
use ferrum_os.Paging.Tables.{copy_entries}
use ferrum_os.Fd.{Objects}
use ferrum_os.Fd.Counts.{Side, IsBalanced}
use ferrum_os.Fd.Fork.{and_table, fork_clone-IsBalanced}
use ferrum_os.Sched.{Context, Process, ready}
use ferrum_os.Spawn.{Kernel, phys_to_virt}
use ferrum_os.Vma.{Vma, VmaFlags, VmaKind, contains, add_vma}
use ferrum_os.Vma.Cover.{attr_at, IsSorted}
use ferrum_os.Vma.Add.{Added, add_vma-Added}
use ferrum_os.Vma.Space.{AddressSpace, rounds}
use ferrum_os.Spawn.Copy.{on_added, copy_area, copy_areas, map_kernel_image, expect}
use ferrum_os.Spawn.Fork.{
  SyscallFrame, fork_stack, finished, finish_fork, with_child_areas, with_child_table, with_kstack,
  fork,
}

-- the first that is there
abbrev or_else :
    Option (VmaFlags × VmaKind) → Option (VmaFlags × VmaKind) → Option (VmaFlags × VmaKind)
or_else (some x) y = some x
or_else none y = y

-- The areas that the copy comes to cover what both lists cover.
abbrev pub Joined : List Vma → List Vma → Option (List Vma) → Machine → Type 0
Joined mine vs none m = ⊥
Joined mine vs (some t) m =
    IsSorted 0 t × ((a : ℕ) → attr_at t a ≡ or_else (attr_at mine a) (attr_at vs a))

abbrev FreeFrom : ℕ → List Vma → Type 0
FreeFrom lo mine = (a : ℕ) → lo ≤ a → attr_at mine a ≡ none

or_else-grown :
    (v : Vma) (vs mine grown : List Vma) (a : ℕ)
    → attr_at grown a ≡ (if contains v a then some (v.flags, v.kind) else attr_at mine a)
    → (contains v a ≡ true → attr_at mine a ≡ none)
    → or_else (attr_at grown a) (attr_at vs a) ≡ or_else (attr_at mine a) (attr_at (v ∷ vs) a)
unfolding attr_at
or_else-grown v vs mine grown a e free = elim (Bool-cases (contains v a)) [
  | inl c ↦ rw (e, c, free c) refl
  | inr c ↦ rw (e, c) refl
]

contains-le : (v : Vma) (a : ℕ) → contains v a ≡ true → (v.start ≤ a) × (a < v.end)
unfolding contains
contains-le v a h = ground arith

Joined-grown :
    (v : Vma) (vs mine grown : List Vma) (r : Option (List Vma)) (m : Machine)
    → ((a : ℕ)
        → attr_at grown a ≡ (if contains v a then some (v.flags, v.kind) else attr_at mine a))
    → ((a : ℕ) → contains v a ≡ true → attr_at mine a ≡ none)
    → Joined grown vs r m
    → Joined mine (v ∷ vs) r m
Joined-grown v vs mine grown none m cover fresh j = j
Joined-grown v vs mine grown (some t) m cover fresh (sorted, same) =
    (sorted, λ a. same a ∙ or_else-grown v vs mine grown a (cover a) (fresh a))

copy_areas-Joined :
    (vs : List Vma) (lo parent_pml4 child_pml4 new_pid : ℕ) (mine : List Vma) (m : Machine)
    → IsSorted lo vs
    → IsSorted 0 mine
    → FreeFrom lo mine
    → Unless (Joined mine vs) (copy_areas vs parent_pml4 child_pml4 new_pid mine m)
unfolding copy_areas attr_at
copy_areas-Joined [] lo parent_pml4 child_pml4 new_pid mine m s t free = (t, λ a. ground arith)
copy_areas-Joined (v ∷ vs) lo parent_pml4 child_pml4 new_pid mine m s t free =
    go (add_vma mine v) (add_vma-Added 0 mine v (omega arith) s.1 t) (λ grown m' sorted free'.
      copy_areas-Joined vs v.end parent_pml4 child_pml4 new_pid grown m' s.2 sorted free')
  where
    go :
        (r : Result (List Vma))
        → Added 0 mine v r
        → ((grown : List Vma) (m' : Machine)
            → IsSorted 0 grown
            → FreeFrom v.end grown
            → Unless (Joined grown vs) (copy_areas vs parent_pml4 child_pml4 new_pid grown m'))
        → Unless (Joined mine (v ∷ vs)) (
            on_added r
              (λ grown.
                copy_area (rounds v.start v.end) v parent_pml4 child_pml4 new_pid v.start
                >> copy_areas vs parent_pml4 child_pml4 new_pid grown)
              m)
    go (err e) (same, a, c, covered) rest = absurd (ground (arith, free a, contains-le v a c))
    go (ok grown) (sorted, cover, fresh, kept) rest =
        Unless-and_then (Joined mine (v ∷ vs))
          (copy_area (rounds v.start v.end) v parent_pml4 child_pml4 new_pid v.start m)
          (λ u. copy_areas vs parent_pml4 child_pml4 new_pid grown)
          (λ u m'.
            Unless-map (Joined grown vs) (Joined mine (v ∷ vs)) _
              (rest grown m' sorted
                (λ a le. ground (arith, cover a, contains-le v a, free a (omega (arith, s, le)))))
              (λ r m'' j. Joined-grown v vs mine grown r m'' cover fresh j))

-- The child that fork returns; `others` is what the other tables hold of the pipes' ends.
abbrev pub Forked :
    (Side → ℕ → ℕ) → Objects → Process → ℕ → Option (Process × Objects) → Machine → Type 0
Forked others o parent new_pid none m = Unit {0}
Forked others o parent new_pid (some (child, o')) m =
    (child.pid ≡ new_pid)
    × (child.parent_pid ≡ parent.pid)
    × (child.state ≡ ready)
    × (child.cwd ≡ parent.cwd)
    × (child.brk_start ≡ parent.brk_start)
    × (child.brk_current ≡ parent.brk_current)
    × (child.fs_base ≡ parent.fs_base)
    × (child.fd_table ≡ parent.fd_table)
    × IsBalanced (and_table others o parent.fd_table) o' child.fd_table
    × IsSorted 0 child.address_space.vmas
    × ((a : ℕ) → attr_at child.address_space.vmas a ≡ attr_at parent.address_space.vmas a)

module _ (k : Kernel) (parent : Process) (new_pid lo : ℕ) (o : Objects) (others : Side → ℕ → ℕ)
    (balanced : IsBalanced others o parent.fd_table)
    (ordered : IsSorted lo parent.address_space.vmas) where
  abbrev P : Option (Process × Objects) → Machine → Type 0
  P = Forked others o parent new_pid

  finished-Forked :
      (kstack : ℕ) (context : Context) (space : AddressSpace) (v : ℕ) (m : Machine)
      → IsSorted 0 space.vmas
      → ((a : ℕ) → attr_at space.vmas a ≡ attr_at parent.address_space.vmas a)
      → P (finished parent new_pid kstack context space o v) m
  finished-Forked kstack context space v m sorted same =
      let (copied, counts) = fork_clone-IsBalanced others o parent.fd_table balanced in
      (refl, refl, refl, refl, refl, refl, refl, copied, counts, sorted, same)

  finish_fork-Forked :
      (kstack : ℕ) (context : Context) (space : AddressSpace) (m : Machine)
      → IsSorted 0 space.vmas
      → ((a : ℕ) → attr_at space.vmas a ≡ attr_at parent.address_space.vmas a)
      → Unless P (finish_fork k parent new_pid kstack context space o m)
  unfolding finish_fork
  finish_fork-Forked kstack context space m sorted same =
      Unless-and_then P (copy_entries 256 256 space.pml4_phys parent.address_space.pml4_phys m) _
        λ u m1.
          Unless-and_then P (map_kernel_image space.pml4_phys k.image_base k.image_size m1) _
            λ u m2. Unless-and_then P (Buddy.check_metadata_integrity m2) _ λ u m3.
              Unless-and_then P (phys_to_virt kstack m3)
                (λ v m4. some (finished parent new_pid kstack context space o v, m4))
                λ v m4. finished-Forked kstack context space v m4 sorted same

  with_child_areas-Forked :
      (kstack pml4 : ℕ) (context : Context) (r : Option (List Vma)) (m : Machine)
      → Joined [] parent.address_space.vmas r m
      → Unless P (with_child_areas k parent new_pid kstack context o pml4 r m)
  unfolding attr_at
  with_child_areas-Forked kstack pml4 context none m joined = tt
  with_child_areas-Forked kstack pml4 context (some vmas) m (sorted, same) =
      finish_fork-Forked kstack context
        (record { pml4_phys = pml4; vmas = vmas; owner_pid = new_pid }) m sorted same

  with_child_table-Forked :
      (kstack : ℕ) (context : Context) (r : Option ℕ) (m : Machine)
      → Unless P (with_child_table k parent new_pid kstack context o r m)
  unfolding attr_at
  with_child_table-Forked kstack context none m = tt
  with_child_table-Forked kstack context (some pml4) m =
      let source = parent.address_space in
      Unless-bind (Joined [] source.vmas) P
        (copy_areas source.vmas source.pml4_phys pml4 new_pid [] m)
        (with_child_areas k parent new_pid kstack context o pml4)
        (copy_areas-Joined source.vmas lo source.pml4_phys pml4 new_pid [] m ordered tt
          (λ a le. refl))
        (λ r m'. with_child_areas-Forked kstack pml4 context r m')

  with_kstack-Forked :
      (frame : SyscallFrame) (r : Option ℕ) (m : Machine)
      → Unless P (with_kstack k parent new_pid frame o r m)
  with_kstack-Forked frame none m = tt
  with_kstack-Forked frame (some kstack) m =
      Unless-and_then P (track kstack 3 proc_stack new_pid m) _ λ u m1.
        Unless-and_then P (fork_stack k kstack frame m1) _ λ context m2.
          Unless-and_then P (expect k.kernel_pml4 m2) _ λ pml4 m3.
            Unless-and_then P (Tables.new_user pml4 new_pid m3)
              (with_child_table k parent new_pid kstack context o)
              λ r m4. with_child_table-Forked kstack context r m4

  -- If the parent's areas are sorted and every pipe counts the descriptors that hold its ends,
  -- then fork, unless it panics, returns none or a
  -- Ready child with the new number and the parent's number, directory, break, fs_base and
  -- descriptors, whose areas are sorted and give every address the rights and kind that the
  -- parent's give it, and every pipe counts the child's descriptors too.
  pub fork-Forked :
      (frame : SyscallFrame) (m : Machine) → Unless P (fork k parent new_pid frame o m)
  unfolding fork
  fork-Forked frame m =
      Unless-and_then P (Buddy.alloc 3 m) (with_kstack k parent new_pid frame o)
        λ r m1. with_kstack-Forked frame r m1
