-- ===== src/Sched/Turns.antt =====
-- How long a ready process waits for its turn: the calls of `schedule` of kernel/src/process.rs
-- that resume others first.
use mathlib.Core.Path.{subst}
use native.Mathlib.Nat.{mod-eq_of_lt, mod_self}
use ferrum_os.Prelude.{
  ℕ, suc, ◌+◌, ◌%◌, ◌≤◌, ◌<◌, ◌≡◌, ◌≢◌, refl, ◌∙◌, ap, true, ◌==◌, if◌then◌else◌, arith, length,
  Bool-cases, inl, inr, length-set,
}
use ferrum_os.Sched.{
  ready, Scheduler, is_in, slot_at, start_of, demote, promote, demote_slot, promote_slot, schedule,
  Switch, stay, resume, resume_idle,
}
use ferrum_os.Sched.Next.{IsNext, distance, start_of_lt}
use ferrum_os.Sched.Switching.{
  Switched, schedule-Switched, slot_at-promote, demote-keeps_ready, in_range_of,
}

next_start : (len i : ℕ) → i < len → (i + 1) % len ≡ (if i + 1 == len then 0 else i + 1)
next_start len i lt = elim (Bool-cases (i + 1 == len)) [
  | inl c ↦ let e : i + 1 ≡ len = ground arith in rw (c, e) (mod_self len)
  | inr c ↦ rw c (mod-eq_of_lt (ground arith))
]

distance_after :
    (len start i j : ℕ)
    → start < len
    → i < len
    → j < len
    → i ≢ j
    → distance len start i ≤ distance len start j
    → distance len ((i + 1) % len) j < distance len start j
distance_after len start i j hs hi hj ne le = rw (next_start len i hi) (ground arith)

length-demote : (s : Scheduler) → length (demote s).processes ≡ length s.processes
unfolding demote
length-demote s = elim (Bool-cases s.initialized) [
  | inl c ↦
      rw c (length-set s.processes s.current_idx (demote_slot (slot_at s.processes s.current_idx)))
  | inr c ↦ rw c refl
]

start_of-demote : (s : Scheduler) → start_of (demote s) ≡ start_of s
unfolding demote
start_of-demote s = elim (Bool-cases s.initialized) [
  | inl c ↦ rw c (
      ap (λ n. (s.current_idx + 1) % n)
        (length-set s.processes s.current_idx (demote_slot (slot_at s.processes s.current_idx))))
  | inr c ↦ rw c refl
]

-- how many slots the search of the next `schedule` passes before it reaches slot `j`
abbrev pub turns_to : Scheduler → ℕ → ℕ
turns_to s j = distance (length s.processes) (start_of s) j

-- the scheduler once it has chosen slot `i`
abbrev pub chose : Scheduler → ℕ → Scheduler
chose s i = promote (record (demote s) { current_idx = i; initialized = true }) i

pub length-chose : (s : Scheduler) (i : ℕ) → length (chose s i).processes ≡ length s.processes
unfolding promote
length-chose s i =
    length-set (demote s).processes i (promote_slot (slot_at (demote s).processes i))
    ∙ length-demote s

start_of-chose :
    (s : Scheduler) (i : ℕ) → start_of (chose s i) ≡ (i + 1) % length (chose s i).processes
unfolding promote
start_of-chose s i = refl

module _ (s : Scheduler) (j : ℕ) (waits : is_in ready s.processes j ≡ true) where
  chose-keeps_ready : (i : ℕ) → i ≢ j → is_in ready (chose s i).processes j ≡ true
  chose-keeps_ready i ne = elim (Bool-cases (i == j)) [
    | inl c ↦ absurd (ne (ground arith))
    | inr c ↦
        rw (slot_at-promote (record (demote s) { current_idx = i; initialized = true }) i j, c)
          (demote-keeps_ready s j waits)
  ]

  chose-nearer : (i : ℕ) → IsNext (demote s) i → i ≢ j → turns_to (chose s i) j < turns_to s j
  chose-nearer i next ne =
      let here = in_range_of ready s.processes j waits in
      let ld = length-demote s in
      let i_lt : i < length s.processes = omega (arith, next.in_range, ld) in
      let le : distance (length s.processes) (start_of s) i
          ≤ distance (length s.processes) (start_of s) j =
        subst (λ n. distance n (start_of s) i ≤ distance n (start_of s) j) ld
          (subst
            (λ st.
              distance (length (demote s).processes) st i
              ≤ distance (length (demote s).processes) st j)
            (start_of-demote s)
            (next.first j (omega (arith, here, ld)) (demote-keeps_ready s j waits))) in
      let lt =
        distance_after (length s.processes) (start_of s) i j (start_of_lt s (omega (arith, here)))
          i_lt here ne le in
      rw (start_of-chose s i, length-chose s i) lt

  turned :
      (r : Switch × Scheduler) (i : ℕ)
      → Switched s r
      → r.0 ≡ resume i
      → i ≢ j
      → (length r.1.processes ≡ length s.processes)
        × (is_in ready r.1.processes j ≡ true)
        × (turns_to r.1 j < turns_to s j)
  turned (stay, s') i h e ne = absurd (cc)
  turned (resume_idle, s') i h e ne = absurd (cc)
  turned (resume k, s') i h e ne =
      let ne' : k ≢ j = λ same. ne (cc) in
      rw h.2 (length-chose s k, chose-keeps_ready k ne', chose-nearer k h.1 ne')

  switches : (r : Switch × Scheduler) → Switched s r → (i : ℕ) × (r.0 ≡ resume i)
  switches (stay, s') h = absurd (ground (arith, h.1 j))
  switches (resume_idle, s') h = absurd (ground (arith, h.1 j))
  switches (resume k, s') h = (k, refl)

  nearer :
      (i : ℕ)
      → (schedule s).0 ≡ resume i
      → i ≢ j
      → (length (schedule s).1.processes ≡ length s.processes)
        × (is_in ready (schedule s).1.processes j ≡ true)
        × (turns_to (schedule s).1 j < turns_to s j)
  nearer i = turned (schedule s) i (schedule-Switched s)

  -- With a ready process in slot j, schedule resumes some slot; if that is another slot, process j
  -- is ready after the call, the table has kept its length, and the round-robin search has fewer
  -- slots to pass before j than it had.
  pub schedule-nearer :
      (i : ℕ) × ((schedule s).0 ≡ resume i)
      × (i ≢ j
          → (length (schedule s).1.processes ≡ length s.processes)
            × (is_in ready (schedule s).1.processes j ≡ true)
            × (turns_to (schedule s).1 j < turns_to s j))
  schedule-nearer = let (i, e) = switches (schedule s) (schedule-Switched s) in (i, e, nearer i e)

-- `n` calls of `schedule` in a row resume other slots than `j`. Between two calls, processes change
-- as they like, but the table keeps its length and the place of the search, and `j` stays ready.
pub data Passes (j : ℕ) : ℕ → Scheduler → Type 0 where
  done : (s : Scheduler) → is_in ready s.processes j ≡ true → Passes j 0 s
  pass :
      (n i : ℕ) (s t : Scheduler)
      → is_in ready s.processes j ≡ true
      → (schedule s).0 ≡ resume i
      → i ≢ j
      → length t.processes ≡ length (schedule s).1.processes
      → start_of t ≡ start_of (schedule s).1
      → Passes j n t
      → Passes j (suc n) s

Passes-ready : (j : ℕ) {n : ℕ} {s : Scheduler} → Passes j n s → is_in ready s.processes j ≡ true
Passes-ready j (done s waits) = waits
Passes-ready j (pass n i s t waits e ne same_length same_start rest) = waits

Passes-le : (j : ℕ) {n : ℕ} {s : Scheduler} → Passes j n s → n ≤ turns_to s j
Passes-le j (done s waits) = omega arith
Passes-le j (pass n i s t waits e ne same_length same_start rest) =
    let le = Passes-le j rest in
    let lt = (nearer s j waits i e ne).2 in
    let same : turns_to t j ≡ turns_to (schedule s).1 j =
      ap (λ len. distance len (start_of t) j) same_length
      ∙ ap (λ st. distance (length (schedule s).1.processes) st j) same_start in
    omega (arith, le, lt, same)

-- Let slot j hold a process that is ready before each of n successive calls of schedule and after
-- the last, where each call resumes another slot and, between two calls, the length of the table
-- and the start of the search stay as they are. Then n is smaller than the number of slots: a
-- ready process is not passed over for longer.
pub Passes-lt_length : (j n : ℕ) (s : Scheduler) → Passes j n s → n < length s.processes
Passes-lt_length j n s h =
    let here = in_range_of ready s.processes j (Passes-ready j h) in
    let st = start_of_lt s (omega (arith, here)) in ground (arith, Passes-le j h, here, st)
