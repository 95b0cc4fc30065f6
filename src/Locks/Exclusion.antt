-- ===== src/Locks/Exclusion.antt =====
-- `IrqMutex` of kernel/src/spinlock.rs: at most one guard, with interrupts off, and the interrupt
-- flag as before when the guard is dropped.
use mathlib.Core.Path.{subst}
use ferrum_os.Prelude.{
  ℕ, ◌≡◌, refl, sym, ◌∙◌, ap, Bool, true, false, if◌then◌else◌, ◌==◌, arith, Bool-cases, inl, inr,
}
use ferrum_os.Locks.{
  Pc, outside, asked, spinning, holding, released, Mutex, Move, ask, disable, spin, win, store,
  unlock, restore, at_index, Processors, Step, pick, Reach, start, later,
}

abbrev pub holds : Pc → Bool
holds (holding was) = true
holds _ = false

-- The interrupt flag of a contender whose flag was `before` when it last stood outside.
abbrev pub IsSaved : Bool → Bool → Pc → Type 0
IsSaved before irq outside = irq ≡ before
IsSaved before irq (asked was) = (was ≡ before) × (irq ≡ before)
IsSaved before irq (spinning was) = (was ≡ before) × (irq ≡ false)
IsSaved before irq (holding was) = (was ≡ before) × (irq ≡ false)
IsSaved before irq (released was) = (was ≡ before) × (irq ≡ false)

-- What holds between steps: a free mutex has no holder, a locked one has exactly one, and every flag
-- is saved.
pub record Inv (before : ℕ → Bool) (m : Mutex) (irq : ℕ → Bool) (pc : ℕ → Pc) : Type 0 where
  pub free : m.locked ≡ false → (i : ℕ) → holds (pc i) ≡ false
  pub owner : m.locked ≡ true → (i : ℕ) × (holds (pc i) ≡ true)
  pub unique : (i j : ℕ) → holds (pc i) ≡ true → holds (pc j) ≡ true → i ≡ j
  pub saved : (i : ℕ) → IsSaved (before i) (irq i) (pc i)

-- The part of the invariant that is about the mutex, after a step of contender `i`, from what the
-- step does to `locked` and to whether `i` holds.
IsSaved-at_index :
    (before irq : ℕ → Bool) (pc : ℕ → Pc) (i : ℕ) (q : Bool) (p : Pc)
    → ((j : ℕ) → IsSaved (before j) (irq j) (pc j))
    → IsSaved (before i) q p
    → (j : ℕ) → IsSaved (before j) (at_index irq i q j) (at_index pc i p j)
IsSaved-at_index before irq pc i q p h hi j = elim (Bool-cases (i == j)) [
  | inl c ↦ let same : i ≡ j = ground arith in rw c (subst (λ k. IsSaved (before k) q p) same hi)
  | inr c ↦ rw c (h j)
]

holds-at_index :
    (pc : ℕ → Pc) (i : ℕ) (p : Pc) (j : ℕ)
    → holds (at_index pc i p j) ≡ (if i == j then holds p else holds (pc j))
holds-at_index pc i p j = elim (Bool-cases (i == j)) [ inl c ↦ rw c refl | inr c ↦ rw c refl ]

-- The flag of the contender that moves.
Move-IsSaved :
    {m m' : Mutex} {irq irq' : Bool} {p p' : Pc} (before : Bool)
    → Move m irq p m' irq' p'
    → IsSaved before irq p
    → IsSaved before irq' p'
Move-IsSaved before ask h = (h, h)
Move-IsSaved before disable h = (h.0, refl)
Move-IsSaved before spin h = h
Move-IsSaved before (win free) h = h
Move-IsSaved before (store v) h = h
Move-IsSaved before unlock h = h
Move-IsSaved before (restore {was = true}) h = h.0
Move-IsSaved before (restore {was = false}) h = h.1 ∙ h.0

module _ {before : ℕ → Bool} {m : Mutex} {irq : ℕ → Bool} {pc : ℕ → Pc} (inv : Inv before m irq pc)
    (i : ℕ) where
  open inv use {free, owner, unique, saved}

  -- A step that leaves `locked` alone, of a contender that holds as before.
  same-Inv :
      (m' : Mutex) (q : Bool) (p' : Pc)
      → m'.locked ≡ m.locked
      → holds p' ≡ holds (pc i)
      → IsSaved (before i) q p'
      → Inv before m' (at_index irq i q) (at_index pc i p')
  same-Inv m' q p' same kept s =
      let as_before : (j : ℕ) → holds (at_index pc i p' j) ≡ holds (pc j) = λ j.
        holds-at_index pc i p' j ∙ elim (Bool-cases (i == j)) [
          | inl c ↦ let here : i ≡ j = ground arith in rw c (kept ∙ ap (λ k. holds (pc k)) here)
          | inr c ↦ rw c refl
        ] in
      record {
        free = λ f j. as_before j ∙ free (sym same ∙ f) j;
        owner = λ l. let o = owner (sym same ∙ l) in (o.0, as_before o.0 ∙ o.1);
        unique = λ j k a b. unique j k (sym (as_before j) ∙ a) (sym (as_before k) ∙ b);
        saved = IsSaved-at_index before irq pc i q p' saved s;
      }

  win-Inv :
      (m' : Mutex) (q : Bool) (p' : Pc)
      → m.locked ≡ false
      → m'.locked ≡ true
      → holds p' ≡ true
      → IsSaved (before i) q p'
      → Inv before m' (at_index irq i q) (at_index pc i p')
  win-Inv m' q p' was now mine s =
      let only : (j : ℕ) → holds (at_index pc i p' j) ≡ (i == j) = λ j.
        holds-at_index pc i p' j
        ∙ elim (Bool-cases (i == j)) [ inl c ↦ rw c mine | inr c ↦ rw c (free was j) ] in
      record {
        free = λ f j. absurd (ground (arith, now, f));
        owner = λ l. (i, only i ∙ ground arith);
        unique = λ j k a b. ground (arith, only j, only k, a, b);
        saved = IsSaved-at_index before irq pc i q p' saved s;
      }

  unlock-Inv :
      (m' : Mutex) (q : Bool) (p' : Pc)
      → holds (pc i) ≡ true
      → m'.locked ≡ false
      → holds p' ≡ false
      → IsSaved (before i) q p'
      → Inv before m' (at_index irq i q) (at_index pc i p')
  unlock-Inv m' q p' was now mine s =
      let nobody : (j : ℕ) → holds (at_index pc i p' j) ≡ false = λ j.
        holds-at_index pc i p' j ∙ elim (Bool-cases (i == j)) [
          | inl c ↦ rw c mine
          | inr c ↦ rw c (elim (Bool-cases (holds (pc j))) [
            | inl d ↦ absurd (ground (arith, unique i j was d))
            | inr d ↦ d
          ])
        ] in
      record {
        free = λ f j. nobody j;
        owner = λ l. absurd (ground (arith, now, l));
        unique = λ j k a b. absurd (ground (arith, nobody j, a));
        saved = IsSaved-at_index before irq pc i q p' saved s;
      }

  Move-Inv :
      {m' : Mutex} {r q : Bool} {p p' : Pc}
      → Move m r p m' q p'
      → pc i ≡ p
      → IsSaved (before i) q p'
      → Inv before m' (at_index irq i q) (at_index pc i p')
  Move-Inv {m'} {q = q} {p' = p'} ask at s = same-Inv m' q p' refl (sym (ap holds at)) s
  Move-Inv {m'} {q = q} {p' = p'} disable at s = same-Inv m' q p' refl (sym (ap holds at)) s
  Move-Inv {m'} {q = q} {p' = p'} spin at s = same-Inv m' q p' refl (sym (ap holds at)) s
  Move-Inv {m'} {q = q} {p' = p'} (win f) at s = win-Inv m' q p' f refl refl s
  Move-Inv {m'} {q = q} {p' = p'} (store v) at s = same-Inv m' q p' refl (sym (ap holds at)) s
  Move-Inv {m'} {q = q} {p' = p'} unlock at s = unlock-Inv m' q p' (ap holds at) refl refl s
  Move-Inv {m'} {q = q} {p' = p'} restore at s = same-Inv m' q p' refl (sym (ap holds at)) s

Step-Inv :
    {before : ℕ → Bool} {s t : Processors}
    → Step s t
    → Inv before s.mutex s.irq s.pc
    → Inv before t.mutex t.irq t.pc
Step-Inv {before} (pick i mv) inv =
    Move-Inv inv i mv refl (Move-IsSaved (before i) mv (inv.saved i))

Reach-Inv :
    {value : ℕ} {irq : ℕ → Bool} {s : Processors} → Reach value irq s → Inv irq s.mutex s.irq s.pc
Reach-Inv start = record {
  free = λ f i. refl;
  owner = λ l. absurd (ground (arith, l));
  unique = λ i j a b. absurd (ground (arith, a));
  saved = λ i. refl;
}
Reach-Inv (later r st) = Step-Inv st (Reach-Inv r)

holder_irq : (before irq : Bool) (p : Pc) → holds p ≡ true → IsSaved before irq p → irq ≡ false
holder_irq before irq outside h s = absurd (ground (arith, h))
holder_irq before irq (asked was) h s = absurd (ground (arith, h))
holder_irq before irq (spinning was) h s = s.1
holder_irq before irq (holding was) h s = s.1
holder_irq before irq (released was) h s = absurd (ground (arith, h))

-- In every state that contenders of an IrqMutex reach, in any order of their steps, at most one
-- holds a guard; while one does, the mutex is locked and the holder's interrupts are off.
pub exclusion :
    {value : ℕ} {irq : ℕ → Bool} {s : Processors}
    → Reach value irq s
    → (i j : ℕ) → holds (s.pc i) ≡ true
    → holds (s.pc j) ≡ true
    → (i ≡ j) × (s.mutex.locked ≡ true) × (s.irq i ≡ false)
exclusion {irq = irq} {s} r i j hi hj =
    let inv = Reach-Inv r in
    let locked : s.mutex.locked ≡ true = elim (Bool-cases s.mutex.locked) [
      | inl c ↦ c
      | inr c ↦ absurd (ground (arith, inv.free c i, hi))
    ] in
    (inv.unique i j hi hj, locked, holder_irq (irq i) (s.irq i) (s.pc i) hi (inv.saved i))

-- In every state that contenders of an IrqMutex reach, the interrupt flag of a contender that is
-- not in lock and has no guard is as it was at the start.
pub restored :
    {value : ℕ} {irq : ℕ → Bool} {s : Processors}
    → Reach value irq s
    → (i : ℕ) → s.pc i ≡ outside
    → s.irq i ≡ irq i
restored {irq = irq} {s} r i at = subst (IsSaved (irq i) (s.irq i)) at ((Reach-Inv r).saved i)
