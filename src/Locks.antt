-- ===== src/Locks.antt =====
-- `IrqMutex` of kernel/src/spinlock.rs: contenders, each with the interrupt flag of its processor,
-- that lock and unlock one mutex. A step is one access: of the interrupt flag, of `locked`, or of the
-- data under the guard. `SpinMutex` takes the same steps on `locked` and none on the flag.
pub mod Exclusion
use ferrum_os.Prelude.{ℕ, ◌≡◌, Bool, true, false, if◌then◌else◌, ◌==◌}

-- Where a contender stands. `was` is `irq_was_enabled`.
pub data Pc : Type 0 where
  outside : Pc  -- before `lock`
  asked : (was : Bool) → Pc  -- behind `are_enabled`
  spinning : (was : Bool) → Pc  -- in the `while` of `lock`
  holding : (was : Bool) → Pc  -- with the guard
  released : (was : Bool) → Pc  -- in `drop`, behind the store

-- the mutex, and the interrupt flag of the contender that moves
pub record Mutex : Type 0 where
  pub locked : Bool
  pub value : ℕ

-- One step of one contender. `compare_exchange_weak` may fail at any time.
pub data Move (m : Mutex) (irq : Bool) : Pc → Mutex → Bool → Pc → Type 0 where
  ask : Move m irq outside m irq (asked irq)
  disable : {was : Bool} → Move m irq (asked was) m false (spinning was)
  spin : {was : Bool} → Move m irq (spinning was) m irq (spinning was)
  win :
      {was : Bool}
      → m.locked ≡ false
      → Move m irq (spinning was) (record m { locked = true }) irq (holding was)
  store : {was : Bool} (v : ℕ) → Move m irq (holding was) (record m { value = v }) irq (holding was)
  unlock : {was : Bool} → Move m irq (holding was) (record m { locked = false }) irq (released was)
  restore : {was : Bool} → Move m irq (released was) m (if was then true else irq) outside

abbrev pub at_index {ℓ} : {A : Type ℓ} → (ℕ → A) → ℕ → A → ℕ → A
at_index f i a j = if i == j then a else f j

pub record Processors : Type 0 where
  pub mutex : Mutex
  pub irq : ℕ → Bool
  pub pc : ℕ → Pc

pub data Step (s : Processors) : Processors → Type 0 where
  pick :
      (i : ℕ) {m : Mutex} {irq : Bool} {p : Pc}
      → Move s.mutex (s.irq i) (s.pc i) m irq p
      → Step s (record { mutex = m; irq = at_index s.irq i irq; pc = at_index s.pc i p })

-- `IrqMutex::new`, with the interrupt flags as they are
abbrev pub init : ℕ → (ℕ → Bool) → Processors
init value irq = record {
  mutex = record { locked = false; value = value };
  irq = irq;
  pc = λ i. outside;
}

pub data Reach (value : ℕ) (irq : ℕ → Bool) : Processors → Type 0 where
  start : Reach value irq (init value irq)
  later : {s t : Processors} → Reach value irq s → Step s t → Reach value irq t
