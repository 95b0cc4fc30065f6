-- ===== src/Memory/Brk.antt =====
-- The program break of kernel/src/syscall.rs.
use ferrum_os.Prelude.{
  ℕ, ◌%◌, ◌⊎◌, ◌+◌, ◌≤◌, ◌<◌, ◌≡◌, refl, ◌||◌, Option, none, some, List, leb, ◌==◌, page_up,
  page_size, u64_mod, Fault, arith, Bool-cases, inl, inr,
}
use ferrum_os.Vma.{Vma}
use ferrum_os.Vma.Area.{extend_heap}
use ferrum_os.Vma.Cover.{IsSorted}
use ferrum_os.Vma.Heap.{IsLastHeap, Grown, Lost, Outcome, extend_heap-Outcome}
use ferrum_os.Sched.{Process}
use ferrum_os.Memory.{brk_result, syscall_brk}

-- The break stays, and so does everything else.
abbrev Stays : ℕ → Process → ℕ × Process → Type 0
Stays requested p (r, p') = (requested ≤ p.brk_current) × (r ≡ p.brk_current) × (p' ≡ p)

-- `e` is the request rounded up to a page.
abbrev pub IsRounded : ℕ → ℕ → Type 0
IsRounded requested e = (requested ≤ e) × (e < requested + page_size) × (e % page_size ≡ 0)

-- The break, and the end of the heap area with it, has moved to the request rounded up.
abbrev Grows : ℕ → Process → Vma → ℕ × Process → Type 0
Grows requested p h (r, p') =
    (p.brk_current < requested)
    × IsRounded requested r
    × (p'.brk_current ≡ r)
    × (p'.brk_start ≡ p.brk_start)
    × Grown p.address_space.vmas h r p'.address_space.vmas

-- Another area is in the way: the break stays, and the heap area is gone.
abbrev Fails : ℕ → Process → Vma → ℕ × Process → Type 0
Fails requested p h (r, p') =
    (p.brk_current < requested)
    × (r ≡ p.brk_current)
    × (p'.brk_current ≡ p.brk_current)
    × (p'.brk_start ≡ p.brk_start)
    × (e : ℕ) × IsRounded requested e
    × Lost p.address_space.vmas h e p'.address_space.vmas

-- What brk promises.
abbrev pub Broken : ℕ → Process → Vma → Option (ℕ × Process) → Type 0
Broken requested p h none = ⊥
Broken requested p h (some r) =
    Stays requested p r ⊎ (Grows requested p h r ⊎ Fails requested p h r)

page_up-IsRounded : (a : ℕ) → a + page_size ≤ u64_mod → IsRounded a (page_up a)
page_up-IsRounded a h = (omega (arith, h), omega (arith, h), omega (arith, h))

module _ (requested : ℕ) (p : Process) (room : requested + page_size ≤ u64_mod) where
  brk_result-Broken :
      (h : Vma) (r : Option (Option Fault × List Vma))
      → p.brk_current < requested
      → Outcome p.address_space.vmas h (page_up requested) r
      → Broken requested p h (brk_result p (page_up requested) r)
  brk_result-Broken h none lt out = out
  brk_result-Broken h (some (some e, vmas)) lt (fault, lost) =
      inr (inr (lt, refl, refl, refl, page_up requested, page_up-IsRounded requested room, lost))
  brk_result-Broken h (some (none, vmas)) lt grown =
      inr (inl (lt, page_up-IsRounded requested room, refl, refl, grown))

  -- For a request at least a page below the end of the 64-bit range, sorted areas and the last
  -- heap area h among them, which starts below the break, brk does not panic. A request that is
  -- not above the break changes nothing and returns the break. For any other, brk moves the end of
  -- h and the break to the request rounded up to a page and returns that; or another area lies
  -- between the start of h and there: then it returns the old break, which it keeps, and h is gone
  -- from the areas.
  pub syscall_brk-Broken :
      (h : Vma)
      → IsSorted 0 p.address_space.vmas
      → IsLastHeap p.address_space.vmas h
      → h.start < p.brk_current
      → Broken requested p h (syscall_brk requested p)
  unfolding syscall_brk
  syscall_brk-Broken h sorted last below =
      elim (Bool-cases (requested == 0 || leb requested p.brk_current)) [
        | inl c ↦ rw c (inl (ground arith, refl, refl))
        | inr c ↦
            let lt : p.brk_current < requested = ground arith in
            let up : h.start < page_up requested = omega (arith, lt, below, room) in
            let vmas = p.address_space.vmas in
            rw c (
              brk_result-Broken h (extend_heap vmas p.brk_start (page_up requested)) lt
                (extend_heap-Outcome vmas p.brk_start (page_up requested) h sorted last up))
      ]
