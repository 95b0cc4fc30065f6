-- ===== src/Sched/Next.antt =====
-- The round-robin choice, `next_process` of kernel/src/process.rs.
use ferrum_os.Prelude.{
  ℕ, zero, suc, ◌+◌, ◌-◌, ◌%◌, ◌≤◌, ◌<◌, ◌≡◌, refl, sym, ◌∙◌, ap, true, false, Option, none, some,
  ltb, ◌==◌, if◌then◌else◌, arith, length, Bool-cases, inl, inr,
}
use native.Mathlib.Nat.{mod-lt, mod-eq_of_lt, mod-eq-sub-mod}
use ferrum_os.Sched.{ready, Slots, Scheduler, is_in, find_ready, start_of, next_process}

-- how many steps a round-robin search that starts at `start` takes to slot `j`
abbrev pub distance : ℕ → ℕ → ℕ → ℕ
distance len start j = if ltb j start then j + len - start else j - start

wrap_lem :
    (len start e : ℕ)
    → start < len
    → e < len
    → (start + e) % len ≡ (if ltb (start + e) len then start + e else start + e - len)
wrap_lem len start e hs he = elim (Bool-cases (ltb (start + e) len)) [
  | inl c ↦ rw c (mod-eq_of_lt (ground arith))
  | inr c ↦ rw c (mod-eq-sub-mod (ground arith) ∙ mod-eq_of_lt (ground arith))
]

pub distance-reaches :
    (len start j : ℕ) → start < len → j < len → (start + distance len start j) % len ≡ j
distance-reaches len start j hs hj =
    wrap_lem len start (distance len start j) hs (ground arith) ∙ ground arith

pub distance_wrap :
    (len start d : ℕ) → start < len → d < len → distance len start ((start + d) % len) ≡ d
distance_wrap len start d hs hd = rw (wrap_lem len start d hs hd) (ground arith)

-- A search through slots `i`, `i + 1`, … behind `start` has passed slots that are not ready.
abbrev Passed : Slots → ℕ → ℕ → ℕ → Type 0
Passed ps start i d = (e : ℕ) → i ≤ e → e < d → is_in ready ps ((start + e) % length ps) ≡ false

Passed-step :
    (ps : Slots) (start i d : ℕ)
    → is_in ready ps ((start + i) % length ps) ≡ false
    → Passed ps start (i + 1) d
    → Passed ps start i d
Passed-step ps start i d c rest e le lt = elim (Bool-cases (e == i)) [
  | inl same ↦
      let at : e ≡ i = ground arith in ap (λ x. is_in ready ps ((start + x) % length ps)) at ∙ c
  | inr other ↦ rest e (ground arith) lt
]

find_ready-finds :
    (ps : Slots) (start i n j : ℕ)
    → find_ready ps start i n ≡ some j
    → (d : ℕ) × (i ≤ d)
      × (d < i + n)
      × (j ≡ (start + d) % length ps)
      × (is_in ready ps j ≡ true)
      × Passed ps start i d
unfolding find_ready
find_ready-finds ps start i zero j h = absurd (ground arith)
find_ready-finds ps start i (suc n) j h =
    elim (Bool-cases (is_in ready ps ((start + i) % length ps))) [
      | inl c ↦
          let at : (start + i) % length ps ≡ j = ground arith in
          (
            i,
            omega arith,
            omega arith,
            sym at,
            ap (is_in ready ps) (sym at) ∙ c,
            λ e le lt. absurd (omega arith),
          )
      | inr c ↦
          let tail : find_ready ps start (i + 1) n ≡ some j = ground arith in
          let (d, le, lt, at, r, before) = find_ready-finds ps start (i + 1) n j tail in
          (d, omega arith, omega arith, at, r, Passed-step ps start i d c before)
    ]

find_ready-none :
    (ps : Slots) (start i n : ℕ) → find_ready ps start i n ≡ none → Passed ps start i (i + n)
unfolding find_ready
find_ready-none ps start i zero h e le lt = absurd (omega arith)
find_ready-none ps start i (suc n) h e le lt =
    elim (Bool-cases (is_in ready ps ((start + i) % length ps))) [
      | inl c ↦ absurd (ground arith)
      | inr c ↦
          let tail : find_ready ps start (i + 1) n ≡ none = ground arith in
          Passed-step ps start i (i + suc n) c
            (λ e' le' lt'. find_ready-none ps start (i + 1) n tail e' le' (omega arith)) e le lt
    ]

-- Slot `i` holds a ready process, and the round-robin order reaches no ready one before it.
pub record IsNext (s : Scheduler) (i : ℕ) : Type 0 where
  pub in_range : i < length s.processes
  pub is_ready : is_in ready s.processes i ≡ true
  pub first :
      (j : ℕ)
      → j < length s.processes
      → is_in ready s.processes j ≡ true
      → distance (length s.processes) (start_of s) i ≤ distance (length s.processes) (start_of s) j

-- what the choice promises
abbrev pub Chosen : Scheduler → Option (ℕ × Scheduler) → Type 0
Chosen s none = (j : ℕ) → j < length s.processes → is_in ready s.processes j ≡ false
Chosen s (some (i, s')) = IsNext s i × (s' ≡ record s { current_idx = i; initialized = true })

pub start_of_lt : (s : Scheduler) → 0 < length s.processes → start_of s < length s.processes
start_of_lt s pos = elim (Bool-cases s.initialized) [
  | inl c ↦ rw c (mod-lt (s.current_idx + 1) pos)
  | inr c ↦ rw c pos
]

module _ (s : Scheduler) where
  none_ready :
      find_ready s.processes (start_of s) 0 (length s.processes) ≡ none
      → (j : ℕ) → j < length s.processes
      → is_in ready s.processes j ≡ false
  none_ready h j lt =
      let st = start_of_lt s (omega (arith, lt)) in
      let reach = distance-reaches (length s.processes) (start_of s) j st lt in
      let d = distance (length s.processes) (start_of s) j in
      ap (is_in ready s.processes) (sym reach)
      ∙ find_ready-none s.processes (start_of s) 0 (length s.processes) h d (omega arith)
          (ground (arith, st, lt))

  some_ready :
      (i : ℕ) → find_ready s.processes (start_of s) 0 (length s.processes) ≡ some i → IsNext s i
  some_ready i h =
      let (d, le, lt', at, r, before) =
        find_ready-finds s.processes (start_of s) 0 (length s.processes) i h in
      let lt : d < length s.processes = omega (arith, lt') in
      let st = start_of_lt s (omega (arith, lt)) in
      record {
        in_range = rw at (mod-lt (start_of s + d) (omega (arith, lt)));
        is_ready = r;
        first = λ j lt' r'.
            let here : distance (length s.processes) (start_of s) i ≡ d =
              ap (distance (length s.processes) (start_of s)) at
              ∙ distance_wrap (length s.processes) (start_of s) d st lt in
            let reach = distance-reaches (length s.processes) (start_of s) j st lt' in
            elim (Bool-cases (ltb (distance (length s.processes) (start_of s) j) d)) [
              | inl c ↦
                  let waits : is_in ready s.processes j ≡ false =
                    ap (is_in ready s.processes) (sym reach)
                    ∙ before (distance (length s.processes) (start_of s) j) (omega arith)
                        (ground arith) in
                  absurd (cc)
              | inr c ↦ rw here (ground arith)
            ];
      }

  pub next_process-Chosen : Chosen s (next_process s)
  unfolding next_process
  next_process-Chosen = go (find_ready s.processes (start_of s) 0 (length s.processes)) refl
    where
      go :
          (r : Option ℕ)
          → find_ready s.processes (start_of s) 0 (length s.processes) ≡ r
          → Chosen s (elim r [
            | none ↦ none
            | some i ↦ some (i, record s { current_idx = i; initialized = true })
          ])
      go none h = none_ready h
      go (some i) h = (some_ready i h, refl)
