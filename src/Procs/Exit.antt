-- ===== src/Procs/Exit.antt =====
-- `syscall_exit` of kernel/src/syscall.rs: what the end of a process leaves for its parent.
use ferrum_os.Prelude.{
  ℕ, zero, suc, ◌<◌, ◌≡◌, ◌≢◌, refl, sym, ◌∙◌, ap, Bool, true, false, ◌&&◌, Option, none, some, [],
  ◌∷◌, arith, ◌==◌, length, set, Bool-cases, inl, inr, get_elem?-set_self, get_elem?-set_ne,
}
use ferrum_os.Fd.{Objects, close_all, fd_max}
use ferrum_os.Sched.{
  Scheduler, Slots, Process, flatten, slot_at, ready, waiting, state_eq, with_state, current_mut,
}
use ferrum_os.Procs.{
  is_zombie, wake, ended, end_process, end_current, WaitRound, reaped, returned, blocked_in,
  wait_round,
}
use ferrum_os.Procs.Picked.{Picked, wait_round-Picked}

-- a process that waits under that number
abbrev pub awaits : ℕ → Option Process → Bool
awaits parent none = false
awaits parent (some p) = p.pid == parent && state_eq p.state waiting

abbrev pub ready_slot : Option Process → Option Process
ready_slot none = none
ready_slot (some p) = some (with_state ready p)

wake_other :
    (parent : ℕ) (ps : Slots) (k : ℕ)
    → awaits parent (slot_at ps k) ≡ false
    → slot_at (wake parent ps) k ≡ slot_at ps k
unfolding wake
wake_other parent [] k h = refl
wake_other parent (none ∷ ps) zero h = refl
wake_other parent (none ∷ ps) (suc k) h = wake_other parent ps k h
wake_other parent (some p ∷ ps) zero h = rw h refl
wake_other parent (some p ∷ ps) (suc k) h =
    elim (Bool-cases (p.pid == parent && state_eq p.state waiting)) [
      | inl c ↦ rw c refl
      | inr c ↦ rw c (wake_other parent ps k h)
    ]

wake_first :
    (parent : ℕ) (ps : Slots) (k : ℕ)
    → awaits parent (slot_at ps k) ≡ true
    → ((l : ℕ) → l < k → awaits parent (slot_at ps l) ≡ false)
    → slot_at (wake parent ps) k ≡ ready_slot (slot_at ps k)
unfolding wake
wake_first parent [] k h first = absurd (ground arith)
wake_first parent (none ∷ ps) zero h first = absurd (ground arith)
wake_first parent (none ∷ ps) (suc k) h first =
    wake_first parent ps k h (λ l lt. first (suc l) (omega arith))
wake_first parent (some p ∷ ps) zero h first = rw h refl
wake_first parent (some p ∷ ps) (suc k) h first =
    rw (first 0 (omega arith)) (wake_first parent ps k h (λ l lt. first (suc l) (omega arith)))

current_slot :
    (s : Scheduler) (p : Process)
    → current_mut s ≡ some p
    → slot_at s.processes s.current_idx ≡ some p
unfolding current_mut
current_slot s p h = elim (Bool-cases s.initialized) [
  | inl c ↦ ground arith
  | inr c ↦ absurd (ground arith)
]

slot_in_range : (ps : Slots) (i : ℕ) (p : Process) → slot_at ps i ≡ some p → i < length ps
slot_in_range [] i p h = absurd (ground arith)
slot_in_range (slot ∷ ps) zero p h = omega arith
slot_in_range (slot ∷ ps) (suc i) p h = omega (arith, slot_in_range ps i p h)

module _ (code : ℕ) (s : Scheduler) (o : Objects) (p : Process)
    (runs : current_mut s ≡ some p) where
  -- the process when it has ended
  abbrev pub ended_current : Process
  ended_current = ended code (close_all p.fd_table o 0 fd_max).0 p

  -- the slots before the parent is woken
  abbrev ended_slots : Slots
  ended_slots = set s.processes s.current_idx (some ended_current)

  processes-end_current : (end_current code s o).0.processes ≡ wake p.parent_pid ended_slots
  unfolding end_current
  processes-end_current = ap (λ r. (end_process code s o r).0.processes) runs

  ended_here : slot_at ended_slots s.current_idx ≡ some ended_current
  ended_here = ap flatten (
      get_elem?-set_self s.processes s.current_idx (some ended_current)
        (slot_in_range s.processes s.current_idx p (current_slot s p runs)))

  ended_other : (k : ℕ) → s.current_idx ≢ k → slot_at ended_slots k ≡ slot_at s.processes k
  ended_other k ne =
      ap flatten (get_elem?-set_ne s.processes s.current_idx k (some ended_current) ne)

  not_awaiting : awaits p.parent_pid (slot_at ended_slots s.current_idx) ≡ false
  not_awaiting = ap (awaits p.parent_pid) ended_here ∙ ground arith

  stays_ended : slot_at (end_current code s o).0.processes s.current_idx ≡ some ended_current
  stays_ended =
      ap (λ ps. slot_at ps s.current_idx) processes-end_current
      ∙ wake_other p.parent_pid ended_slots s.current_idx not_awaiting
      ∙ ended_here

  unmoved :
      (k : ℕ)
      → k ≢ s.current_idx
      → awaits p.parent_pid (slot_at s.processes k) ≡ false
      → slot_at (end_current code s o).0.processes k ≡ slot_at s.processes k
  unmoved k ne sleeps =
      let same = ended_other k (λ e. ne (sym e)) in
      ap (λ ps. slot_at ps k) processes-end_current
      ∙ wake_other p.parent_pid ended_slots k (ap (awaits p.parent_pid) same ∙ sleeps)
      ∙ same

  -- no slot before `k` awaits the process, in the slots before the parent is woken
  first_ended :
      (k : ℕ)
      → ((l : ℕ) → l < k → l ≢ s.current_idx → awaits p.parent_pid (slot_at s.processes l) ≡ false)
      → (l : ℕ) → l < k
      → awaits p.parent_pid (slot_at ended_slots l) ≡ false
  first_ended k first l lt = elim (Bool-cases (l == s.current_idx)) [
    | inl c ↦
        let here : l ≡ s.current_idx = ground arith in
        ap (λ x. awaits p.parent_pid (slot_at ended_slots x)) here ∙ not_awaiting
    | inr c ↦
        let ne : l ≢ s.current_idx = ground arith in
        ap (awaits p.parent_pid) (ended_other l (λ e. ne (sym e))) ∙ first l lt ne
  ]

  woken :
      (k : ℕ)
      → k ≢ s.current_idx
      → awaits p.parent_pid (slot_at s.processes k) ≡ true
      → ((l : ℕ) → l < k → l ≢ s.current_idx → awaits p.parent_pid (slot_at s.processes l) ≡ false)
      → slot_at (end_current code s o).0.processes k ≡ ready_slot (slot_at s.processes k)
  woken k ne sleeps first =
      let same = ended_other k (λ e. ne (sym e)) in
      ap (λ ps. slot_at ps k) processes-end_current
      ∙ wake_first p.parent_pid ended_slots k (ap (awaits p.parent_pid) same ∙ sleeps)
          (first_ended k first)
      ∙ ap ready_slot same

  -- exit leaves the current process Dead in its slot, with the exit code and the table that
  -- close_all returns; of the processes in other slots that wait under its parent's number the
  -- first is made Ready; a slot that does not wait under that number is as it was.
  pub end_current_lem :
      (slot_at (end_current code s o).0.processes s.current_idx ≡ some ended_current)
      × ((k : ℕ)
          → k ≢ s.current_idx
          → awaits p.parent_pid (slot_at s.processes k) ≡ false
          → slot_at (end_current code s o).0.processes k ≡ slot_at s.processes k)
      × ((k : ℕ)
          → k ≢ s.current_idx
          → awaits p.parent_pid (slot_at s.processes k) ≡ true
          → ((l : ℕ)
              → l < k
              → l ≢ s.current_idx
              → awaits p.parent_pid (slot_at s.processes l) ≡ false)
          → slot_at (end_current code s o).0.processes k ≡ ready_slot (slot_at s.processes k))
  end_current_lem = (stays_ended, unmoved, woken)

  zombie_here :
      is_zombie p.parent_pid none (slot_at (end_current code s o).0.processes s.current_idx) ≡ true
  zombie_here = ap (is_zombie p.parent_pid none) stays_ended ∙ ground arith

  reaps :
      (no_hang : Bool) (r : WaitRound)
      → Picked p.parent_pid none no_hang (end_current code s o).0 r
      → (zombie : Process) × (t : Scheduler) × (r ≡ reaped zombie t)
  reaps no_hang (reaped zombie t) w = (zombie, t, refl)
  reaps no_hang (returned n) w = absurd (ground (arith, w.0 s.current_idx, zombie_here))
  reaps no_hang (blocked_in t) w = absurd (ground (arith, w.0 s.current_idx, zombie_here))

  -- After the state changes of exit of the current process, a round of wait4 with its parent's
  -- number and any child as target reaps a process; it neither blocks nor returns without one.
  pub exit-wait :
      (no_hang : Bool)
      → (zombie : Process) × (t : Scheduler) × (wait_round p.parent_pid none no_hang
            (end_current code s o).0
          ≡ reaped zombie t)
  exit-wait no_hang =
      reaps no_hang (wait_round p.parent_pid none no_hang (end_current code s o).0)
        (wait_round-Picked p.parent_pid none no_hang (end_current code s o).0)
