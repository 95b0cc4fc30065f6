-- ===== src/Entry/Frames.antt =====
-- `syscall_entry` of kernel/src/syscall.rs: the registers of the program, saved and loaded again.
use ferrum_os.Prelude.{
  ℕ, zero, suc, ◌+◌, ◌-◌, ◌*◌, ◌≤◌, ◌≡◌, sym, List, [], ◌∷◌, arith, length, set,
}
use mathlib.Core.Path.{subst}
use ferrum_os.Machine.{Machine, Ends, Ends-map, update}
use ferrum_os.Spawn.Fork.{SyscallFrame, frame_words, load_frame}
use ferrum_os.Spawn.Resume.{WordsAt, WordsAt-same, load_frame-words}
use ferrum_os.Entry.{pushed_registers, push_registers, enter, leave}

-- the first list turned round, before the second
abbrev turned : List ℕ → List ℕ → List ℕ
turned [] vs = vs
turned (w ∷ ws) vs = turned ws (w ∷ vs)

abbrev OnStack : ℕ → List ℕ → ℕ → Machine → Type 0
OnStack base ws rsp m = (rsp ≡ base) × WordsAt m.mem base ws

push_registers-OnStack :
    (rsp : ℕ) (ws vs : List ℕ) (m : Machine)
    → 8 * length ws ≤ rsp
    → WordsAt m.mem rsp vs
    → Ends (OnStack (rsp - 8 * length ws) (turned ws vs)) (push_registers rsp ws m)
unfolding push_registers
push_registers-OnStack rsp [] vs m h k =
    let e : rsp ≡ rsp - 8 * 0 = omega arith in (e, subst (λ x. WordsAt m.mem x vs) e k)
push_registers-OnStack rsp (w ∷ ws) vs m h k =
    let mem : ℕ → ℕ = update m.mem (rsp - 8) w in
    let m' : Machine = record m { mem = mem } in
    let next : rsp - 8 + 8 ≡ rsp = omega arith in
    let above = WordsAt-same m.mem mem rsp vs (λ b le. ground (arith, le, h)) k in
    let stored : WordsAt mem (rsp - 8) (w ∷ vs) =
      (ground arith, subst (λ x. WordsAt mem x vs) (sym next) above) in
    let moved : rsp - 8 - 8 * length ws ≡ rsp - 8 * suc (length ws) = omega arith in
    subst (λ x. Ends (OnStack x (turned ws (w ∷ vs))) (push_registers (rsp - 8) ws m')) moved
      (push_registers-OnStack (rsp - 8) ws (w ∷ vs) m' (omega arith) stored)

WordsAt-set :
    (mem : ℕ → ℕ) (addr : ℕ) (ws : List ℕ) (i v : ℕ)
    → WordsAt mem addr ws
    → WordsAt (update mem (addr + 8 * i) v) addr (set ws i v)
WordsAt-set mem addr [] i v k = tt
WordsAt-set mem addr (w ∷ ws) zero v k = (
  ground arith,
  WordsAt-same mem (update mem (addr + 8 * 0) v) (addr + 8) ws (λ b le. ground (arith, le)) k.1,
)
WordsAt-set mem addr (w ∷ ws) (suc i) v k =
    let moved : addr + 8 + 8 * i ≡ addr + 8 * suc i = omega arith in
    (
      ground (arith, k.0),
      subst (λ x. WordsAt (update mem x v) (addr + 8) (set ws i v)) moved
          (WordsAt-set mem (addr + 8) ws i v k.1),
    )

-- The handler finds the registers in its frame; and if it leaves the frame alone, the program goes on
-- with them, but for `rax`, which holds the result.
abbrev pub Saved : ℕ → SyscallFrame → ℕ → Machine → Type 0
Saved top f base m =
    (base ≡ top - 128)
    × (load_frame m.mem base ≡ f)
    × ((result : ℕ) → leave m.mem base result ≡ record f { rax = result })

frame-Saved :
    (top : ℕ) (f : SyscallFrame) (base : ℕ) (m : Machine)
    → OnStack (top - 128) (frame_words f) base m
    → Saved top f base m
unfolding leave load_frame
frame-Saved top f base m (at, words) =
    let here = subst (λ x. WordsAt m.mem x (frame_words f)) (sym at) words in
    let loaded = load_frame-words m.mem base f here in
    (
      at,
      loaded,
      λ result.
          load_frame-words (update m.mem (base + 0x60) result) base (record f { rax = result })
            (WordsAt-set m.mem base (frame_words f) 12 result here),
    )

-- From a kernel stack with room for 128 bytes, the pushes of syscall_entry do not panic and leave
-- a frame 128 bytes lower, in whose layout the handler reads the program's registers; and if that
-- frame is as it was, then for any result of the handler the end of syscall_entry loads the
-- program's registers again, except that rax holds the result.
pub enter-Saved :
    (top : ℕ) (f : SyscallFrame) (m : Machine) → 128 ≤ top → Ends (Saved top f) (enter top f m)
unfolding enter
enter-Saved top f m h =
    Ends-map (OnStack (top - 128) (frame_words f)) (Saved top f)
      (push_registers top (pushed_registers f) m)
      (push_registers-OnStack top (pushed_registers f) [] m (omega arith) tt)
      (λ base m' k. frame-Saved top f base m' k)
