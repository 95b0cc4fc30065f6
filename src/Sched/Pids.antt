-- ===== src/Sched/Pids.antt =====
-- Process numbers: `alloc_pid` and `add_process` of kernel/src/process.rs, as fork calls them.
use ferrum_os.Prelude.{
  ℕ, zero, suc, ◌≤◌, ◌≡◌, ◌≢◌, ◌⊎◌, refl, sym, ◌∙◌, ap, none, some, [], ◌∷◌, ◌==◌, if◌then◌else◌,
  arith, Bool-cases, inl, inr,
}
use ferrum_os.Sched.{Scheduler, Slots, Process, slot_at, place, add_process, max_pid, alloc_pid}

pid-le-max_pid : (ps : Slots) (j : ℕ) (p : Process) → slot_at ps j ≡ some p → p.pid ≤ max_pid ps
unfolding max_pid
pid-le-max_pid [] j p h = absurd (ground arith)
pid-le-max_pid (none ∷ ps) zero p h = absurd (ground arith)
pid-le-max_pid (none ∷ ps) (suc j) p h = pid-le-max_pid ps j p h
pid-le-max_pid (some q ∷ ps) zero p h =
    let same : q ≡ p = ground arith in omega (arith, ap (λ r. r.pid) same)
pid-le-max_pid (some q ∷ ps) (suc j) p h = omega (arith, pid-le-max_pid ps j p h)

alloc_pid-fresh :
    (s : Scheduler) (j : ℕ) (p : Process) → slot_at s.processes j ≡ some p → p.pid ≢ alloc_pid s
unfolding alloc_pid
alloc_pid-fresh s j p h e = omega (arith, pid-le-max_pid s.processes j p h, e)

-- A process is placed in one slot that was free, or behind the last.
placed :
    (ps : Slots) (p : Process)
    → (i : ℕ) × (slot_at ps i ≡ none)
      × ((k : ℕ) → slot_at (place ps p) k ≡ (if i == k then some p else slot_at ps k))
unfolding place
placed [] p = (0, refl, placed_first)
  where
    placed_first : (k : ℕ) → slot_at (some p ∷ []) k ≡ (if 0 == k then some p else none)
    placed_first zero = refl
    placed_first (suc k) = ground arith
placed (none ∷ ps) p = (0, refl, placed_first)
  where
    placed_first :
        (k : ℕ) → slot_at (some p ∷ ps) k ≡ (if 0 == k then some p else slot_at (none ∷ ps) k)
    placed_first zero = refl
    placed_first (suc k) = ground arith
placed (some q ∷ ps) p = let (i, free, at) = placed ps p in (suc i, free, placed_next i at)
  where
    placed_next :
        (i : ℕ)
        → ((k : ℕ) → slot_at (place ps p) k ≡ (if i == k then some p else slot_at ps k))
        → (k : ℕ)
        → slot_at (some q ∷ place ps p) k ≡ (if suc i == k then some p else slot_at (some q ∷ ps) k)
    placed_next i at zero = ground arith
    placed_next i at (suc k) = ground (arith, at k)

-- No two slots hold processes of the same number.
pub record UniquePids (s : Scheduler) : Type 0 where
  pub unique :
      (i j : ℕ) (p q : Process)
      → slot_at s.processes i ≡ some p
      → slot_at s.processes j ≡ some q
      → p.pid ≡ q.pid
      → i ≡ j

module _ (s : Scheduler) (child : Process) (fresh : child.pid ≡ alloc_pid s) where
  -- a slot of the new table: the child's, or as it was
  who :
      (slot k : ℕ) (p : Process)
      → (if slot == k then some child else slot_at s.processes k) ≡ some p
      → ((slot ≡ k) × (child ≡ p)) ⊎ (slot_at s.processes k ≡ some p)
  who slot k p h = elim (Bool-cases (slot == k)) [
    | inl c ↦ inl (ground arith, ground arith)
    | inr c ↦ inr (ground arith)
  ]

  differs : (k : ℕ) (p q : Process) → child ≡ p → slot_at s.processes k ≡ some q → p.pid ≢ q.pid
  differs k p q same h e = alloc_pid-fresh s k q h (sym e ∙ ap (λ r. r.pid) (sym same) ∙ fresh)

  -- If no two slots hold processes of the same number, so it is after the process table takes a
  -- child that has the number from alloc_pid.
  pub add_process-UniquePids : UniquePids s → UniquePids (add_process s child)
  add_process-UniquePids u =
      let (slot, free, at) = placed s.processes child in
      record {
        unique = λ i j p q hp hq e. elim (who slot i p (sym (at i) ∙ hp)) [
          | inl a ↦ elim (who slot j q (sym (at j) ∙ hq)) [
            | inl b ↦ sym a.0 ∙ b.0
            | inr b ↦ absurd (differs j p q a.1 b e)
          ]
          | inr a ↦ elim (who slot j q (sym (at j) ∙ hq)) [
            | inl b ↦ absurd (differs i q p b.1 a (sym e))
            | inr b ↦ u.unique i j p q a b e
          ]
        ];
      }
