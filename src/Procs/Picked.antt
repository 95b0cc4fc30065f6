-- ===== src/Procs/Picked.antt =====
-- The loop of `syscall_wait4` of kernel/src/syscall.rs: what its tests come to.
use ferrum_os.Prelude.{
  ℕ, zero, suc, ◌+◌, ◌<◌, ◌≡◌, ◌⊎◌, refl, sym, ◌∙◌, ap, Bool, true, false, Option, none, some, [],
  ◌∷◌, arith, if◌then◌else◌, set, Bool-cases, inl, inr,
}
use ferrum_os.Sched.{Scheduler, Slots, Process, slot_at}
use ferrum_os.Procs.{
  errno, is_child, is_zombie, find_slot, any_slot, WaitRound, reaped, returned, blocked_in, reap_at,
  start_waiting, no_zombie, zombie_found, wait_round,
}

module _ (test : Option Process → Bool) (skips : test none ≡ false) where
  fails_first :
      (slot : Option Process) (ps : Slots) (n : ℕ)
      → test slot ≡ false
      → ((l : ℕ) → l < n → test (slot_at ps l) ≡ false)
      → (l : ℕ) → l < suc n
      → test (slot_at (slot ∷ ps) l) ≡ false
  fails_first slot ps n c rest zero lt = c
  fails_first slot ps n c rest (suc l) lt = rest l (omega arith)

  pub found_slot :
      (i : ℕ) (ps : Slots) (j : ℕ)
      → find_slot test i ps ≡ some j
      → (k : ℕ) × (j ≡ k + i)
        × (test (slot_at ps k) ≡ true)
        × ((l : ℕ) → l < k → test (slot_at ps l) ≡ false)
  unfolding find_slot
  found_slot i [] j h = absurd (ground arith)
  found_slot i (slot ∷ ps) j h = elim (Bool-cases (test slot)) [
    | inl c ↦ (0, ground arith, c, λ l lt. absurd (omega arith))
    | inr c ↦
        let (k, at, t, before) = found_slot (i + 1) ps j (ground arith) in
        (suc k, omega arith, t, fails_first slot ps k c before)
  ]

  pub not_found :
      (i : ℕ) (ps : Slots) → find_slot test i ps ≡ none → (k : ℕ) → test (slot_at ps k) ≡ false
  unfolding find_slot
  not_found i [] h k = skips
  not_found i (slot ∷ ps) h zero = elim (Bool-cases (test slot)) [
    | inl c ↦ absurd (ground arith)
    | inr c ↦ c
  ]
  not_found i (slot ∷ ps) h (suc k) = not_found (i + 1) ps (ground arith) k

  any_slot_lem : (ps : Slots) (k : ℕ) → test (slot_at ps k) ≡ true → any_slot test ps ≡ true
  unfolding any_slot
  any_slot_lem [] k h = absurd (ground (arith, skips))
  any_slot_lem (slot ∷ ps) zero h = rw h refl
  any_slot_lem (slot ∷ ps) (suc k) h = elim (Bool-cases (test slot)) [
    | inl c ↦ rw c refl
    | inr c ↦ rw c (any_slot_lem ps k h)
  ]

  slot_of_any : (ps : Slots) → any_slot test ps ≡ true → (k : ℕ) × (test (slot_at ps k) ≡ true)
  unfolding any_slot
  slot_of_any [] h = absurd (ground arith)
  slot_of_any (slot ∷ ps) h = elim (Bool-cases (test slot)) [
    | inl c ↦ (0, c)
    | inr c ↦ let (k, t) = slot_of_any ps (ground arith) in (suc k, t)
  ]

abbrev pub NoneZombie : ℕ → Option ℕ → Slots → Type 0
NoneZombie caller target ps = (k : ℕ) → is_zombie caller target (slot_at ps k) ≡ false

abbrev pub SomeChild : ℕ → Option ℕ → Slots → Type 0
SomeChild caller target ps = (k : ℕ) × (is_child caller target (slot_at ps k) ≡ true)

-- What a round of wait4 comes to, by the tests of the loop.
abbrev pub Picked : ℕ → Option ℕ → Bool → Scheduler → WaitRound → Type 0
Picked caller target no_hang s (reaped zombie s') =
    (i : ℕ) × (slot_at s.processes i ≡ some zombie)
    × (is_zombie caller target (some zombie) ≡ true)
    × ((l : ℕ) → l < i → is_zombie caller target (slot_at s.processes l) ≡ false)
    × (s' ≡ record s { processes = set s.processes i none })
Picked caller target no_hang s (returned n) =
    NoneZombie caller target s.processes
    × (((n ≡ errno 10) × ((k : ℕ) → is_child caller target (slot_at s.processes k) ≡ false))
        ⊎ ((n ≡ 0) × (no_hang ≡ true) × SomeChild caller target s.processes))
Picked caller target no_hang s (blocked_in s') =
    NoneZombie caller target s.processes
    × (no_hang ≡ false)
    × SomeChild caller target s.processes
    × (s' ≡ start_waiting s)

module _ (caller : ℕ) (target : Option ℕ) (no_hang : Bool) (s : Scheduler) where
  reap-Picked :
      (i : ℕ) (slot : Option Process)
      → slot_at s.processes i ≡ slot
      → is_zombie caller target slot ≡ true
      → ((l : ℕ) → l < i → is_zombie caller target (slot_at s.processes l) ≡ false)
      → Picked caller target no_hang s (reap_at s i slot)
  reap-Picked i none e z first = absurd (ground arith)
  reap-Picked i (some zombie) e z first = (i, e, z, first, refl)

  hang-Picked :
      (b : Bool)
      → no_hang ≡ b
      → NoneZombie caller target s.processes
      → SomeChild caller target s.processes
      → Picked caller target no_hang s (if b then returned 0 else blocked_in (start_waiting s))
  hang-Picked true e clean child = (clean, inr (refl, e, child))
  hang-Picked false e clean child = (clean, e, child, refl)

  no_child :
      any_slot (is_child caller target) s.processes ≡ false
      → (k : ℕ) → is_child caller target (slot_at s.processes k) ≡ false
  no_child h k = elim (Bool-cases (is_child caller target (slot_at s.processes k))) [
    | inl c ↦ absurd (ground (arith, any_slot_lem (is_child caller target) refl s.processes k c))
    | inr c ↦ c
  ]

  no_zombie-Picked :
      NoneZombie caller target s.processes
      → Picked caller target no_hang s (no_zombie caller target no_hang s)
  no_zombie-Picked clean = elim (Bool-cases (any_slot (is_child caller target) s.processes)) [
    | inl c ↦
        rw c
          (hang-Picked no_hang refl clean (slot_of_any (is_child caller target) refl s.processes c))
    | inr c ↦ rw c (clean, inl (refl, no_child c))
  ]

  zombie_found-Picked :
      (r : Option ℕ)
      → find_slot (is_zombie caller target) 0 s.processes ≡ r
      → Picked caller target no_hang s (zombie_found caller target no_hang s r)
  zombie_found-Picked none e =
      no_zombie-Picked (not_found (is_zombie caller target) refl 0 s.processes e)
  zombie_found-Picked (some i) e =
      let (k, at, z, before) = found_slot (is_zombie caller target) refl 0 s.processes i e in
      let here : k ≡ i = omega arith in
      reap-Picked i (slot_at s.processes i) refl
        (ap (λ x. is_zombie caller target (slot_at s.processes x)) (sym here) ∙ z)
        (λ l lt. before l (omega arith))

  pub wait_round-Picked : Picked caller target no_hang s (wait_round caller target no_hang s)
  unfolding wait_round
  wait_round-Picked = zombie_found-Picked (find_slot (is_zombie caller target) 0 s.processes) refl
