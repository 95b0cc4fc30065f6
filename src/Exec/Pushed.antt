-- ===== src/Exec/Pushed.antt =====
-- `build_argv_envp_stack` of kernel/src/syscall.rs on flat memory: the strings that are pushed.
use ferrum_os.Prelude.{
  ℕ, ◌+◌, ◌-◌, ◌≤◌, ◌<◌, ◌≡◌, refl, sym, ◌∙◌, true, false, some, List, [], ◌∷◌, ◌++◌, arith, length,
  ◌==◌, u64_mod,
}
use mathlib.Core.Path.{subst}
use ferrum_os.Paths.{Str}
use ferrum_os.Io.{store_bytes, cstr, read_user_cstr}
use ferrum_os.Io.Buffers.{store_bytes-outside}
use ferrum_os.Io.Names.Cwd.{is_ascii, as_bytes-ascii, cstr-same, cstr-store_bytes}
use ferrum_os.Exec.Stack.{Frame, push_string, push_strings}
use ferrum_os.Exec.Words.{Memory, sub64-eq, add64-eq, store_bytes-append, framed}

-- The addresses, from `lo` on, at which the strings can be read.
abbrev pub Points : Memory → ℕ → List ℕ → List Str → Type 0
Points m lo [] [] = Unit {0}
Points m lo (p ∷ ps) (s ∷ ss) =
    (lo ≤ p) × (p < u64_mod) × (read_user_cstr m p 256 ≡ some s) × Points m lo ps ss
Points m lo [] (s ∷ ss) = ⊥
Points m lo (p ∷ ps) [] = ⊥

read_user_cstr-same :
    (u v : Memory) (p : ℕ)
    → ((b : ℕ) → p ≤ b → u b ≡ v b)
    → read_user_cstr u p 256 ≡ read_user_cstr v p 256
unfolding read_user_cstr
read_user_cstr-same u v p h = ground (arith, cstr-same u v p 256 h)

pub Points-same :
    (u v : Memory) (lo lo' : ℕ) (ps : List ℕ) (ss : List Str)
    → ((b : ℕ) → lo ≤ b → u b ≡ v b)
    → lo' ≤ lo
    → Points v lo ps ss
    → Points u lo' ps ss
Points-same u v lo lo' [] [] h le k = tt
Points-same u v lo lo' [] (s ∷ ss) h le k = k
Points-same u v lo lo' (p ∷ ps) [] h le k = k
Points-same u v lo lo' (p ∷ ps) (s ∷ ss) h le (above, small, reads, rest) = (
  omega (arith, above),
  small,
  read_user_cstr-same u v p (λ b le'. h b (omega (arith, above))) ∙ reads,
  Points-same u v lo lo' ps ss h le rest,
)

-- Strings that the call can pass on: ASCII, and shorter than 256 characters.
abbrev pub ArePassable : List Str → Type 0
ArePassable [] = Unit {0}
ArePassable (s ∷ ss) = (is_ascii s ≡ true) × (length s < 256) × ArePassable ss

-- the bytes that the strings take
unfoldable pub room : List Str → ℕ
room [] = 0
room (s ∷ ss) = length s + 1 + room ss

abbrev Pushed : Frame Memory → Str → Frame Memory → Type 0
Pushed f s g =
    (g.addr + (length s + 1) ≡ f.addr)
    × ((b : ℕ) → f.addr ≤ b → g.memory b ≡ f.memory b)
    × (read_user_cstr g.memory g.addr 256 ≡ some s)

push_string-eq :
    (s : Str) (f : Frame Memory)
    → length s + 1 ≤ f.addr
    → f.addr < u64_mod
    → is_ascii s ≡ true
    → push_string store_bytes s f
      ≡ framed (f.addr - (length s + 1)) (
          store_bytes
            (store_bytes f.memory (f.addr - (length s + 1)) s)
            (f.addr - (length s + 1) + length s)
            (0 ∷ []))
unfolding push_string
push_string-eq s f h k ascii =
    let moved = sub64-eq f.addr (length s + 1) h k in
    let end = add64-eq (f.addr - (length s + 1)) (length s) (omega (arith, h, k)) in
    rw (as_bytes-ascii s ascii, moved, end) refl

is_positive : (a : ℕ) → 0 < a → (a == 0) ≡ false
is_positive a h = ground arith

-- a string and the zero behind it, stored below an address
string_outside :
    (u : Memory) (a top : ℕ) (s : Str) (b : ℕ)
    → a + length s + 1 ≤ top
    → top ≤ b
    → store_bytes (store_bytes u a s) (a + length s) (0 ∷ []) b ≡ u b
string_outside u a top s b h le =
    store_bytes-outside (store_bytes u a s) (a + length s) (0 ∷ []) b (ground arith)
    ∙ store_bytes-outside u a s b (ground arith)

string_reads :
    (u : Memory) (a : ℕ) (s : Str)
    → (a == 0) ≡ false
    → is_ascii s ≡ true
    → length s < 256
    → read_user_cstr (store_bytes (store_bytes u a s) (a + length s) (0 ∷ [])) a 256 ≡ some s
unfolding read_user_cstr
string_reads u a s there ascii short =
    let m = store_bytes (store_bytes u a s) (a + length s) (0 ∷ []) in
    let reads : cstr m a 256 ≡ some s =
      cstr-same m (store_bytes u a (s ++ 0 ∷ [])) a 256
        (λ b le. store_bytes-append u a s (0 ∷ []) b)
      ∙ cstr-store_bytes u a 256 s ascii short in
    rw there reads

push_string-Pushed :
    (f : Frame Memory) (s : Str)
    → f.addr < u64_mod
    → length s + 1 < f.addr
    → is_ascii s ≡ true
    → length s < 256
    → Pushed f s (push_string store_bytes s f)
push_string-Pushed f s top fits ascii short =
    let a = f.addr - (length s + 1) in
    subst (λ g. Pushed f s g) (sym (push_string-eq s f (omega arith) top ascii))
      (
        omega arith,
        (λ b le. string_outside f.memory a f.addr s b (omega arith) le),
        string_reads f.memory a s (is_positive a (omega arith)) ascii short,
      )

abbrev pub AllPushed : Frame Memory → List Str → Frame Memory × List ℕ → Type 0
AllPushed f ss (g, ps) =
    (g.addr + room ss ≡ f.addr)
    × ((b : ℕ) → f.addr ≤ b → g.memory b ≡ f.memory b)
    × Points g.memory g.addr ps ss

pub push_strings-AllPushed :
    (f : Frame Memory) (ss : List Str)
    → f.addr < u64_mod
    → room ss < f.addr
    → ArePassable ss
    → AllPushed f ss (push_strings store_bytes ss f)
unfolding push_strings room
push_strings-AllPushed f [] top fits ok = (omega arith, λ b le. refl, tt)
push_strings-AllPushed f (s ∷ ss) top fits (ascii, short, ok) =
    let g = push_string store_bytes s f in
    let (at, kept, reads) = push_string-Pushed f s top (omega arith) ascii short in
    let (at', kept', points) =
      push_strings-AllPushed g ss (omega (arith, at)) (omega (arith, at, fits)) ok in
    (
      omega (arith, at, at'),
      (λ b le. kept' b (omega (arith, at)) ∙ kept b le),
      (
        omega (arith, at'),
        omega (arith, at, top),
        read_user_cstr-same _ g.memory g.addr kept' ∙ reads,
        points,
      ),
    )
