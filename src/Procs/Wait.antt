-- ===== src/Procs/Wait.antt =====
-- The loop of `syscall_wait4` of kernel/src/syscall.rs: which child it reaps, and when it blocks.
use mathlib.Core.Path.{subst}
use ferrum_os.Prelude.{
  ℕ, ◌==◌, ◌≢◌, ◌<◌, ◌≡◌, ◌⊎◌, refl, sym, ◌∙◌, ap, Bool, true, false, Option, none, some, arith,
  set, inl, inr,
}
use ferrum_os.Sched.{
  Scheduler, Slots, Process, slot_at, ProcessState, ready, running, waiting, blocked, dead,
  state_eq,
}
use ferrum_os.Sched.Switching.{slot_at-change}
use ferrum_os.Procs.{
  errno, is_target, wait_slot, is_child, is_zombie, WaitRound, reaped, returned, blocked_in,
  start_waiting, wait_round,
}
use ferrum_os.Procs.Picked.{SomeChild, Picked, wait_round-Picked}

-- The process number that the caller asks for, if it asks for one.
abbrev pub Admits : Option ℕ → ℕ → Type 0
Admits none pid = Unit {0}
Admits (some wanted) pid = pid ≡ wanted

abbrev pub IsChildOf : ℕ → Option ℕ → Process → Type 0
IsChildOf caller target p = (p.parent_pid ≡ caller) × Admits target p.pid

-- A child that has ended and was not waited for.
abbrev pub IsDeadChild : ℕ → Option ℕ → Process → Type 0
IsDeadChild caller target p = IsChildOf caller target p × (p.state ≡ dead)

-- No process of the slots before `n` has the property.
abbrev pub NoneBefore : (Process → Type 0) → Slots → ℕ → Type 0
NoneBefore P ps n = (l : ℕ) (p : Process) → l < n → slot_at ps l ≡ some p → ¬ P p

abbrev pub Nowhere : (Process → Type 0) → Slots → Type 0
Nowhere P ps = (l : ℕ) (p : Process) → slot_at ps l ≡ some p → ¬ P p

abbrev pub Somewhere : (Process → Type 0) → Slots → Type 0
Somewhere P ps = (l : ℕ) × (p : Process) × (slot_at ps l ≡ some p) × P p

-- Only the current process has changed: it is Waiting.
abbrev pub IsWaiting : Scheduler → Scheduler → Type 0
IsWaiting s s' =
    (s'.current_idx ≡ s.current_idx)
    × (s'.initialized ≡ s.initialized)
    × ((p : Process)
        → slot_at s.processes s.current_idx ≡ some p
        → slot_at s'.processes s.current_idx ≡ some (record p { state = waiting }))
    × ((j : ℕ) → s.current_idx ≢ j → slot_at s'.processes j ≡ slot_at s.processes j)

-- What a round of wait4 promises, by what it comes to.
abbrev pub Waited : ℕ → Option ℕ → Bool → Scheduler → WaitRound → Type 0
Waited caller target no_hang s (reaped zombie s') =
    (i : ℕ) × (slot_at s.processes i ≡ some zombie)
    × IsDeadChild caller target zombie
    × NoneBefore (IsDeadChild caller target) s.processes i
    × (s' ≡ record s { processes = set s.processes i none })
Waited caller target no_hang s (returned n) =
    Nowhere (IsDeadChild caller target) s.processes
    × (((n ≡ errno 10) × Nowhere (IsChildOf caller target) s.processes)
        ⊎ ((n ≡ 0) × (no_hang ≡ true) × Somewhere (IsChildOf caller target) s.processes))
Waited caller target no_hang s (blocked_in s') =
    Nowhere (IsDeadChild caller target) s.processes
    × (no_hang ≡ false)
    × Somewhere (IsChildOf caller target) s.processes
    × IsWaiting s s'

dead_of : (st : ProcessState) → state_eq st dead ≡ true → st ≡ dead
dead_of ready h = absurd (ground arith)
dead_of running h = absurd (ground arith)
dead_of waiting h = absurd (ground arith)
dead_of blocked h = absurd (ground arith)
dead_of dead h = refl

Admits-of : (target : Option ℕ) (pid : ℕ) → is_target target pid ≡ true → Admits target pid
Admits-of none pid h = tt
Admits-of (some t) pid h = ground arith

of_Admits : (target : Option ℕ) (pid : ℕ) → Admits target pid → is_target target pid ≡ true
of_Admits none pid h = refl
of_Admits (some t) pid h = ground arith

module _ (caller : ℕ) (target : Option ℕ) where
  IsChildOf-of : (p : Process) → is_child caller target (some p) ≡ true → IsChildOf caller target p
  IsChildOf-of p h = (ground arith, Admits-of target p.pid (ground arith))

  of-IsChildOf : (p : Process) → IsChildOf caller target p → is_child caller target (some p) ≡ true
  of-IsChildOf p (parent, admits) =
      let here : (p.parent_pid == caller) ≡ true = ground arith in
      rw here (of_Admits target p.pid admits)

  IsDeadChild-of :
      (p : Process) → is_zombie caller target (some p) ≡ true → IsDeadChild caller target p
  IsDeadChild-of p h =
      ((ground arith, Admits-of target p.pid (ground arith)), dead_of p.state (ground arith))

  of-IsDeadChild :
      (p : Process) → IsDeadChild caller target p → is_zombie caller target (some p) ≡ true
  of-IsDeadChild p ((parent, admits), gone) =
      let here : (p.parent_pid == caller) ≡ true = ground arith in
      rw here (rw gone (of_Admits target p.pid admits))

  not-IsDeadChild :
      (slot : Option Process) (p : Process)
      → is_zombie caller target slot ≡ false
      → slot ≡ some p
      → ¬ IsDeadChild caller target p
  not-IsDeadChild slot p h e z =
      absurd (ground (arith, ap (is_zombie caller target) e, of-IsDeadChild p z, h))

  not-IsChildOf :
      (slot : Option Process) (p : Process)
      → is_child caller target slot ≡ false
      → slot ≡ some p
      → ¬ IsChildOf caller target p
  not-IsChildOf slot p h e z =
      absurd (ground (arith, ap (is_child caller target) e, of-IsChildOf p z, h))

  somewhere :
      (ps : Slots) (k : ℕ) (slot : Option Process)
      → slot_at ps k ≡ slot
      → is_child caller target slot ≡ true
      → Somewhere (IsChildOf caller target) ps
  somewhere ps k none e h = absurd (ground arith)
  somewhere ps k (some p) e h = (k, p, e, IsChildOf-of p h)

  has_child : (ps : Slots) → SomeChild caller target ps → Somewhere (IsChildOf caller target) ps
  has_child ps (k, h) = somewhere ps k (slot_at ps k) refl h

start_waiting-IsWaiting : (s : Scheduler) → IsWaiting s (start_waiting s)
unfolding start_waiting
start_waiting-IsWaiting s = (
  refl,
  refl,
  λ p h.
      let self : (s.current_idx == s.current_idx) ≡ true = ground arith in
      slot_at-change wait_slot refl s.processes s.current_idx s.current_idx
      ∙ rw self (ap wait_slot h),
  λ j ne.
      let other : (s.current_idx == j) ≡ false = ground arith in
      slot_at-change wait_slot refl s.processes s.current_idx j ∙ rw other refl,
)

Picked-Waited :
    (caller : ℕ) (target : Option ℕ) (no_hang : Bool) (s : Scheduler) (r : WaitRound)
    → Picked caller target no_hang s r
    → Waited caller target no_hang s r
Picked-Waited caller target no_hang s (reaped zombie s') (i, at, z, first, after) = (
  i,
  at,
  IsDeadChild-of caller target zombie z,
  λ l p lt. not-IsDeadChild caller target (slot_at s.processes l) p (first l lt),
  after,
)
Picked-Waited caller target no_hang s (returned n) (clean, inl (e, childless)) = (
  λ l p. not-IsDeadChild caller target (slot_at s.processes l) p (clean l),
  inl (e, λ l p. not-IsChildOf caller target (slot_at s.processes l) p (childless l)),
)
Picked-Waited caller target no_hang s (returned n) (clean, inr (e, hang, child)) = (
  λ l p. not-IsDeadChild caller target (slot_at s.processes l) p (clean l),
  inr (e, hang, has_child caller target s.processes child),
)
Picked-Waited caller target no_hang s (blocked_in s') (clean, hang, child, after) = (
  λ l p. not-IsDeadChild caller target (slot_at s.processes l) p (clean l),
  hang,
  has_child caller target s.processes child,
  subst (IsWaiting s) (sym after) (start_waiting-IsWaiting s),
)

-- A round of wait4 reaps the first process of the table that is Dead, is a child of the caller and
-- has the number asked for, if one is, and empties its slot; without one it returns ECHILD if no
-- child of the caller has that number, returns 0 if one has and WNOHANG is set, and else blocks,
-- with the current process Waiting and every other slot as it was.
pub wait_round-Waited :
    (caller : ℕ) (target : Option ℕ) (no_hang : Bool) (s : Scheduler)
    → Waited caller target no_hang s (wait_round caller target no_hang s)
wait_round-Waited caller target no_hang s =
    Picked-Waited caller target no_hang s (wait_round caller target no_hang s)
      (wait_round-Picked caller target no_hang s)
