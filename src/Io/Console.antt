-- ===== src/Io/Console.antt =====
-- The serial branch of `syscall_read` in kernel/src/syscall.rs: a line with its editing keys.
use ferrum_os.Prelude.{
  ℕ, ◌+◌, ◌-◌, ◌≤◌, ◌≡◌, refl, ◌∙◌, false, ◌||◌, ◌&&◌, leb, Option, none, some, List, [], ◌∷◌, ◌++◌,
  ◌==◌, ltb, if◌then◌else◌, arith, Bool-cases, inl, inr,
}
use ferrum_os.Io.{store_bytes}

-- User memory, the number of bytes in the buffer, and what the console has shown.
pub record Line : Type 0 where
  pub user : ℕ → ℕ
  pub n : ℕ
  pub shown : List ℕ

abbrev pub type_byte : ℕ → Line → ℕ → List ℕ → Line
type_byte buf l b echo = record {
  user = store_bytes l.user (buf + l.n) (b ∷ []);
  n = l.n + 1;
  shown = l.shown ++ echo;
}

-- Backspace and delete take the last byte back, if there is one.
abbrev pub erase_byte : Line → Line
erase_byte l = if ltb 0 l.n then record l { n = l.n - 1; shown = l.shown ++ 8 ∷ 32 ∷ 8 ∷ [] } else l

-- The loop, over the bytes that arrive; none if they end before the line does. 10 is `\n`, 13 `\r`.
unfoldable pub read_line : ℕ → ℕ → List ℕ → Line → Option Line
unfolding store_bytes
read_line buf count [] l = if ltb l.n count then none else some l
read_line buf count (b ∷ input) l =
    let typed = read_line buf count input (type_byte buf l b (b ∷ [])) in
    let erased = read_line buf count input (erase_byte l) in
    if ltb l.n count
    then (if b == 13 || b == 10
        then some (type_byte buf l 10 (13 ∷ 10 ∷ []))
        else if b == 8 || b == 127
        then erased
        else typed)
    else some l

-- What a read of a line promises, from the line so far: no more bytes than the buffer has room for,
-- and no change of user memory outside the buffer.
abbrev pub IsLine : ℕ → ℕ → Line → Line → Type 0
IsLine buf count l r =
    (r.n ≤ count) × ((a : ℕ) → leb buf a && ltb a (buf + count) ≡ false → r.user a ≡ l.user a)

-- A line that read gets from the serial line is no longer than the buffer, and no byte of user
-- memory outside the buffer changes, whatever is typed and erased.
pub read_line-IsLine :
    (buf count : ℕ) (input : List ℕ) (l r : Line)
    → l.n ≤ count
    → read_line buf count input l ≡ some r
    → IsLine buf count l r
unfolding read_line store_bytes
read_line-IsLine buf count [] l r h e = elim (Bool-cases (ltb l.n count)) [
  | inl c ↦ absurd (ground arith)
  | inr c ↦ let same : l ≡ r = ground arith in rw (← same) (h, λ a out. refl)
]
read_line-IsLine buf count (b ∷ input) l r h e = elim (Bool-cases (ltb l.n count)) [
  | inl c ↦ elim (Bool-cases (b == 13 || b == 10)) [
    | inl d ↦
        let same : type_byte buf l 10 (13 ∷ 10 ∷ []) ≡ r = ground arith in
        rw (← same) (ground arith, λ a out. ground arith)
    | inr d ↦ elim (Bool-cases (b == 8 || b == 127)) [
      | inl f ↦
          let rest : read_line buf count input (erase_byte l) ≡ some r = ground arith in
          let (le, kept) = read_line-IsLine buf count input (erase_byte l) r (ground arith) rest in
          (le, λ a out. kept a out ∙ ground arith)
      | inr f ↦
          let rest : read_line buf count input (type_byte buf l b (b ∷ [])) ≡ some r =
            ground arith in
          let (le, kept) =
            read_line-IsLine buf count input (type_byte buf l b (b ∷ [])) r (ground arith) rest in
          (le, λ a out. kept a out ∙ ground arith)
    ]
  ]
  | inr c ↦ let same : l ≡ r = ground arith in rw (← same) (h, λ a out. refl)
]
