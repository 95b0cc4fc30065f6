-- ===== src/Sched/Switching.antt =====
-- The switch that `schedule` of kernel/src/process.rs makes, on every branch.
use mathlib.Core.Path.{subst}
use ferrum_os.Prelude.{
  ℕ, zero, suc, ◌<◌, ◌≡◌, ◌≢◌, refl, sym, ap, Bool, true, false, Option, none, some, [], ◌∷◌, ◌==◌,
  if◌then◌else◌, ◌&&◌, arith, length, set, Bool-cases, inl, inr, get_elem?-set_self,
  get_elem?-set_ne,
}
use ferrum_os.Sched.{
  ProcessState, ready, running, waiting, blocked, dead, Process, Slots, Scheduler, state_eq, is_in,
  flatten, slot_at, slot_in, next_process, any_ready, demote, demote_slot, promote, promote_slot,
  current_dead, resumed, schedule, Switch, stay, resume, resume_idle, with_state,
}
use ferrum_os.Sched.Next.{IsNext, Chosen, next_process-Chosen}

any_ready_lem : (ps : Slots) (j : ℕ) → is_in ready ps j ≡ true → any_ready ps ≡ true
unfolding any_ready
any_ready_lem [] j h = absurd (ground arith)
any_ready_lem (slot ∷ ps) zero h = rw h refl
any_ready_lem (slot ∷ ps) (suc j) h = elim (Bool-cases (slot_in ready slot)) [
  | inl c ↦ rw c refl
  | inr c ↦ rw c (any_ready_lem ps j h)
]

ready_of_any :
    (ps : Slots) → any_ready ps ≡ true → (j : ℕ) × (j < length ps) × (is_in ready ps j ≡ true)
unfolding any_ready
ready_of_any [] h = absurd (ground arith)
ready_of_any (slot ∷ ps) h = elim (Bool-cases (slot_in ready slot)) [
  | inl c ↦ (0, omega arith, c)
  | inr c ↦ let (j, lt, r) = ready_of_any ps (ground arith) in (suc j, omega arith, r)
]

demoted_stops : (slot : Option Process) → slot_in running (demote_slot slot) ≡ false
demoted_stops none = refl
demoted_stops (some p) = go p.state
  where
    go :
        (st : ProcessState)
        → state_eq
            (if state_eq st running then with_state ready p else record p { state = st }).state
            running
          ≡ false
    go ready = refl
    go running = refl
    go waiting = refl
    go blocked = refl
    go dead = refl

-- The state test of a slot after a write to slot `i`.
pub is_in-set_ne :
    (st : ProcessState) (ps : Slots) (i j : ℕ) (slot : Option Process)
    → i ≢ j
    → is_in st (set ps i slot) j ≡ is_in st ps j
is_in-set_ne st ps i j slot ne = ap (λ r. slot_in st (flatten r)) (get_elem?-set_ne ps i j slot ne)

pub is_in-set_self :
    (st : ProcessState) (ps : Slots) (i : ℕ) (slot : Option Process)
    → i < length ps
    → is_in st (set ps i slot) i ≡ slot_in st slot
is_in-set_self st ps i slot lt = ap (λ r. slot_in st (flatten r)) (get_elem?-set_self ps i slot lt)

pub in_range_of : (st : ProcessState) (ps : Slots) (j : ℕ) → is_in st ps j ≡ true → j < length ps
in_range_of st [] j h = absurd (ground arith)
in_range_of st (slot ∷ ps) zero h = omega arith
in_range_of st (slot ∷ ps) (suc j) h = omega (arith, in_range_of st ps j h)

demoted_ready :
    (slot : Option Process) → slot_in ready slot ≡ true → slot_in ready (demote_slot slot) ≡ true
demoted_ready none h = h
demoted_ready (some p) h = go p.state h
  where
    go :
        (st : ProcessState)
        → state_eq st ready ≡ true
        → state_eq
            (if state_eq st running then with_state ready p else record p { state = st }).state
            ready
          ≡ true
    go ready e = refl
    go running e = refl
    go waiting e = e
    go blocked e = e
    go dead e = e

pub slot_at-change :
    (f : Option Process → Option Process)
    → f none ≡ none
    → (ps : Slots) (i j : ℕ)
    → slot_at (set ps i (f (slot_at ps i))) j ≡ (if i == j then f (slot_at ps j) else slot_at ps j)
slot_at-change f e [] i j = ground arith
slot_at-change f e (p ∷ ps) zero zero = refl
slot_at-change f e (p ∷ ps) zero (suc j) = ground arith
slot_at-change f e (p ∷ ps) (suc i) zero = ground arith
slot_at-change f e (p ∷ ps) (suc i) (suc j) = ground (arith, slot_at-change f e ps i j)

-- the slots after `demote` and `promote`
pub slot_at-demote :
    (s : Scheduler) (j : ℕ)
    → slot_at (demote s).processes j ≡ (
        if s.initialized && s.current_idx == j
        then demote_slot (slot_at s.processes j)
        else slot_at s.processes j)
unfolding demote
slot_at-demote s j = elim (Bool-cases s.initialized) [
  | inl c ↦ rw c (slot_at-change demote_slot refl s.processes s.current_idx j)
  | inr c ↦ rw c refl
]

pub slot_at-promote :
    (s : Scheduler) (i j : ℕ)
    → slot_at (promote s i).processes j
      ≡ (if i == j then promote_slot (slot_at s.processes j) else slot_at s.processes j)
unfolding promote
slot_at-promote s i j = slot_at-change promote_slot refl s.processes i j

pub demote-keeps_ready :
    (s : Scheduler) (j : ℕ)
    → is_in ready s.processes j ≡ true
    → is_in ready (demote s).processes j ≡ true
demote-keeps_ready s j h = elim (Bool-cases (s.initialized && s.current_idx == j)) [
  | inl c ↦ rw (slot_at-demote s j, c) (demoted_ready (slot_at s.processes j) h)
  | inr c ↦ rw (slot_at-demote s j, c) h
]

-- A process runs only in the current slot.
pub record OnlyCurrentRuns (s : Scheduler) : Type 0 where
  pub runs :
      (j : ℕ) → is_in running s.processes j ≡ true → (s.initialized ≡ true) × (j ≡ s.current_idx)

-- After `demote` no process is Running.
pub demote-none_running :
    (s : Scheduler) → OnlyCurrentRuns s → (j : ℕ) → is_in running (demote s).processes j ≡ false
demote-none_running s only j = elim (Bool-cases (s.initialized && s.current_idx == j)) [
  | inl c ↦ rw (slot_at-demote s j, c) (demoted_stops (slot_at s.processes j))
  | inr c ↦
      rw (slot_at-demote s j, c)
        (elim (Bool-cases (is_in running s.processes j)) [
          | inl r ↦ absurd (ground (arith, only.runs j r))
          | inr r ↦ r
        ])
]

-- What `schedule` promises: it goes on only if nothing is ready, and resumes only if a process is
-- ready: the next one, marked Running.
abbrev pub Switched : Scheduler → Switch × Scheduler → Type 0
Switched s (stay, s') =
    (s' ≡ demote s)
    × ((j : ℕ) → is_in ready s.processes j ≡ false)
    × (current_dead (demote s) ≡ false)
Switched s (resume_idle, s') =
    (s' ≡ demote s)
    × ((j : ℕ) → is_in ready s.processes j ≡ false)
    × (current_dead (demote s) ≡ true)
Switched s (resume i, s') =
    ((j : ℕ) × (is_in ready s.processes j ≡ true))
    × IsNext (demote s) i
    × (s' ≡ promote (record (demote s) { current_idx = i; initialized = true }) i)

none_ready : (ps : Slots) → any_ready ps ≡ false → (j : ℕ) → is_in ready ps j ≡ false
none_ready ps h j = elim (Bool-cases (is_in ready ps j)) [
  | inl c ↦ absurd (ground (arith, any_ready_lem ps j c))
  | inr c ↦ c
]

module _ (s : Scheduler) where
  resumed-Switched :
      any_ready s.processes ≡ true
      → (r : Option (ℕ × Scheduler)) → Chosen (demote s) r
      → Switched s (resumed (demote s) r)
  resumed-Switched h none chosen =
      let (j, lt, r) = ready_of_any s.processes h in
      let r' = demote-keeps_ready s j r in
      absurd (ground (arith, chosen j (in_range_of ready (demote s).processes j r')))
  resumed-Switched h (some (i, s')) (next, e) =
      let (j, lt, r) = ready_of_any s.processes h in ((j, r), next, ap (λ x. promote x i) e)

  left-Switched :
      any_ready s.processes ≡ false
      → (b : Bool) → current_dead (demote s) ≡ b
      → Switched s ((if b then resume_idle else stay), demote s)
  left-Switched h true e = (refl, none_ready s.processes h, e)
  left-Switched h false e = (refl, none_ready s.processes h, e)

  pub schedule-Switched : Switched s (schedule s)
  unfolding schedule
  schedule-Switched = elim (Bool-cases (any_ready s.processes)) [
    | inl c ↦ rw c (resumed-Switched c (next_process (demote s)) (next_process-Chosen (demote s)))
    | inr c ↦ rw c (left-Switched c (current_dead (demote s)) refl)
  ]

  none_running-OnlyCurrentRuns : OnlyCurrentRuns s → OnlyCurrentRuns (demote s)
  none_running-OnlyCurrentRuns only = record {
    runs = λ j r. absurd (ground (arith, demote-none_running s only j));
  }

  promote-OnlyCurrentRuns :
      OnlyCurrentRuns s
      → (i : ℕ)
      → OnlyCurrentRuns (promote (record (demote s) { current_idx = i; initialized = true }) i)
  unfolding promote
  promote-OnlyCurrentRuns only i = record {
    runs = λ j r. elim (Bool-cases (i == j)) [
      | inl c ↦ (refl, ground arith)
      | inr c ↦ absurd (
          ground (
            arith,
            demote-none_running s only j,
            slot_at-promote (record (demote s) { current_idx = i; initialized = true }) i j,
          ))
    ];
  }

  Switched-OnlyCurrentRuns :
      OnlyCurrentRuns s → (r : Switch × Scheduler) → Switched s r → OnlyCurrentRuns r.1
  Switched-OnlyCurrentRuns only (stay, s') h =
      subst OnlyCurrentRuns (sym h.0) (none_running-OnlyCurrentRuns only)
  Switched-OnlyCurrentRuns only (resume_idle, s') h =
      subst OnlyCurrentRuns (sym h.0) (none_running-OnlyCurrentRuns only)
  Switched-OnlyCurrentRuns only (resume i, s') h =
      subst OnlyCurrentRuns (sym h.2) (promote-OnlyCurrentRuns only i)

  -- If only the current process of an initialized scheduler is Running, so it is after schedule.
  pub schedule-OnlyCurrentRuns : OnlyCurrentRuns s → OnlyCurrentRuns (schedule s).1
  schedule-OnlyCurrentRuns only = Switched-OnlyCurrentRuns only (schedule s) schedule-Switched
