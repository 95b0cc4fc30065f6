-- ===== src/Exec/Words.antt =====
-- `build_argv_envp_stack` of kernel/src/syscall.rs on flat memory: the words that are pushed.
use ferrum_os.Prelude.{
  ℕ, zero, suc, ◌+◌, ◌-◌, ◌*◌, ◌/◌, ◌^◌, ◌≤◌, ◌<◌, ◌≡◌, refl, sym, ap, ◌∙◌, List, [], ◌∷◌, ◌++◌,
  arith, length, ◌==◌, u64_mod, add64, le_bytes, le_word, Bool-cases, inl, inr,
}
use mathlib.Core.Path.{subst}
use ferrum_os.Elf.Segments.{sub64}
use ferrum_os.Io.{load_bytes, store_bytes}
use ferrum_os.Io.Buffers.{
  store_bytes-at, store_bytes-outside, load_bytes-same, load_bytes-store_bytes,
}
use ferrum_os.Exec.{load_word}
use ferrum_os.Exec.Stack.{Frame, push_word, push_words, push_rows}

abbrev pub Memory : Type 0
Memory = ℕ → ℕ

pub sub64-eq : (a n : ℕ) → n ≤ a → a < u64_mod → sub64 a n ≡ a - n
sub64-eq a n h k = omega arith

pub add64-eq : (a n : ℕ) → a + n < u64_mod → add64 a n ≡ a + n
add64-eq a n h = omega arith

le_word-le_bytes : (n w : ℕ) → w < 256 ^ n → le_word (le_bytes n w) ≡ w
unfolding le_word le_bytes
le_word-le_bytes zero w h = omega arith
le_word-le_bytes (suc n) w h =
    let rest = le_word-le_bytes n (w / 256) (omega arith) in omega (arith, rest)

pub store_bytes-append :
    (u : Memory) (a : ℕ) (xs ys : List ℕ) (b : ℕ)
    → store_bytes (store_bytes u a xs) (a + length xs) ys b ≡ store_bytes u a (xs ++ ys) b
unfolding store_bytes
store_bytes-append u a [] ys b = ap (λ x. store_bytes u x ys b) (omega arith)
store_bytes-append u a (x ∷ xs) ys b = elim (Bool-cases (b == a)) [
  | inl c ↦ rw c (
      store_bytes-outside (store_bytes u a (x ∷ xs)) (a + suc (length xs)) ys b (ground arith)
      ∙ ground arith)
  | inr c ↦
      let inner : store_bytes u a (x ∷ xs) b ≡ store_bytes u (a + 1) xs b = ground arith in
      let moved : a + suc (length xs) ≡ a + 1 + length xs = omega arith in
      rw c (
        store_bytes-at _ _ (a + suc (length xs)) ys b inner
        ∙ ap (λ x. store_bytes (store_bytes u (a + 1) xs) x ys b) moved
        ∙ store_bytes-append u (a + 1) xs ys b)
]

length-le_bytes : (n w : ℕ) → length (le_bytes n w) ≡ n
unfolding le_bytes
length-le_bytes zero w = refl
length-le_bytes (suc n) w = ap suc (length-le_bytes n (w / 256))

load_word-same :
    (u v : Memory) (a : ℕ) → ((b : ℕ) → a ≤ b → u b ≡ v b) → load_word u a ≡ load_word v a
unfolding load_word
load_word-same u v a h = ap le_word (load_bytes-same u v a 8 h)

load_word-stored :
    (u : Memory) (a w : ℕ) → w < u64_mod → load_word (store_bytes u a (le_bytes 8 w)) a ≡ w
unfolding load_word
load_word-stored u a w h =
    let bytes =
      subst (λ n. load_bytes (store_bytes u a (le_bytes 8 w)) a n ≡ le_bytes 8 w)
        (length-le_bytes 8 w) (load_bytes-store_bytes u a (le_bytes 8 w)) in
    ap le_word bytes ∙ le_word-le_bytes 8 w (omega (arith, h))

-- the words at successive addresses
abbrev pub WordsIn : Memory → ℕ → List ℕ → Type 0
WordsIn m a [] = Unit {0}
WordsIn m a (w ∷ ws) = (load_word m a ≡ w) × WordsIn m (a + 8) ws

WordsIn-same :
    (u v : Memory) (a : ℕ) (ws : List ℕ)
    → ((b : ℕ) → a ≤ b → u b ≡ v b)
    → WordsIn v a ws
    → WordsIn u a ws
WordsIn-same u v a [] h k = tt
WordsIn-same u v a (w ∷ ws) h k =
    (load_word-same u v a h ∙ k.0, WordsIn-same u v (a + 8) ws (λ b le. h b (omega arith)) k.1)

-- The frame lies `n` bytes below the base, above which the memory is that of `u`, and the words at its
-- address are these.
abbrev pub Stacked : ℕ → Memory → Frame Memory → ℕ → List ℕ → Type 0
Stacked base u f n ws =
    (f.addr + n ≡ base) × ((b : ℕ) → base ≤ b → f.memory b ≡ u b) × WordsIn f.memory f.addr ws

pub Stacked-at :
    (base : ℕ) (u : Memory) (f : Frame Memory) (n k : ℕ) (ws : List ℕ)
    → n ≡ k
    → Stacked base u f n ws
    → Stacked base u f k ws
Stacked-at base u f n k ws e (at, kept, words) = (omega (arith, at, e), kept, words)

-- Words of 64 bits
abbrev pub AreWords : List ℕ → Type 0
AreWords [] = Unit {0}
AreWords (w ∷ ws) = (w < u64_mod) × AreWords ws

abbrev pub framed : ℕ → Memory → Frame Memory
framed addr memory = record { addr = addr; memory = memory }

push_word-eq :
    (w : ℕ) (f : Frame Memory)
    → 8 ≤ f.addr
    → f.addr < u64_mod
    → push_word store_bytes w f
      ≡ framed (f.addr - 8) (store_bytes f.memory (f.addr - 8) (le_bytes 8 w))
unfolding push_word
push_word-eq w f h k =
    ap (λ a. framed a (store_bytes f.memory a (le_bytes 8 w))) (sub64-eq f.addr 8 h k)

pub push_word-Stacked :
    (base : ℕ) (u : Memory) (f : Frame Memory) (n w : ℕ) (ws : List ℕ)
    → base < u64_mod
    → n + 8 ≤ base
    → w < u64_mod
    → Stacked base u f n ws
    → Stacked base u (push_word store_bytes w f) (n + 8) (w ∷ ws)
push_word-Stacked base u f n w ws top room small (at, kept, words) =
    let a = f.addr - 8 in
    let bytes = le_bytes 8 w in
    let above : (b : ℕ) → f.addr ≤ b → store_bytes f.memory a bytes b ≡ f.memory b =
      λ b le. store_bytes-outside f.memory a bytes b (ground (arith, length-le_bytes 8 w, at)) in
    let next : a + 8 ≡ f.addr = omega (arith, at) in
    subst (λ g. Stacked base u g (n + 8) (w ∷ ws))
      (sym (push_word-eq w f (omega (arith, at)) (omega (arith, at))))
      (
        omega (arith, at),
        (λ b le. above b (omega (arith, at)) ∙ kept b le),
        (
          load_word-stored f.memory a w small,
          subst (λ x. WordsIn (store_bytes f.memory a bytes) x ws) (sym next)
              (WordsIn-same (store_bytes f.memory a bytes) f.memory f.addr ws above words),
        ),
      )

pub push_words-Stacked :
    (base : ℕ) (u : Memory) (f : Frame Memory) (n : ℕ) (ps ws : List ℕ)
    → base < u64_mod
    → n + 8 * length ps ≤ base
    → AreWords ps
    → Stacked base u f n ws
    → Stacked base u (push_words store_bytes ps f) (n + 8 * length ps) (ps ++ ws)
unfolding push_words
push_words-Stacked base u f n [] ws top room small s =
    Stacked-at base u f n (n + 8 * 0) ws (omega arith) s
push_words-Stacked base u f n (p ∷ ps) ws top room small s =
    let g = push_words store_bytes ps f in
    let k = n + 8 * length ps in
    Stacked-at base u (push_word store_bytes p g) (k + 8) (n + 8 * suc (length ps)) (p ∷ (ps ++ ws))
      (omega arith)
      (push_word-Stacked base u g k p (ps ++ ws) top (omega arith) small.0
        (push_words-Stacked base u f n ps ws top (omega arith) small.1 s))

-- the rows as words, in order
unfoldable pub row_words : List (ℕ × ℕ) → List ℕ
row_words [] = []
row_words ((tag, val) ∷ rows) = tag ∷ val ∷ row_words rows

pub push_rows-Stacked :
    (base : ℕ) (u : Memory) (f : Frame Memory) (n : ℕ) (rows : List (ℕ × ℕ)) (ws : List ℕ)
    → base < u64_mod
    → n + 16 * length rows ≤ base
    → AreWords (row_words rows)
    → Stacked base u f n ws
    → Stacked base u (push_rows store_bytes rows f) (n + 16 * length rows) (row_words rows ++ ws)
unfolding push_rows row_words
push_rows-Stacked base u f n [] ws top room small s =
    Stacked-at base u f n (n + 16 * 0) ws (omega arith) s
push_rows-Stacked base u f n ((tag, val) ∷ rows) ws top room small s =
    let g = push_rows store_bytes rows f in
    let k = n + 16 * length rows in
    let vs = row_words rows ++ ws in
    let h = push_word store_bytes val g in
    Stacked-at base u (push_word store_bytes tag h) (k + 8 + 8) (n + 16 * suc (length rows))
      (tag ∷ val ∷ vs) (omega arith)
      (push_word-Stacked base u h (k + 8) tag (val ∷ vs) top (omega arith) small.0 (
        push_word-Stacked base u g k val vs top (omega arith) small.1.0
          (push_rows-Stacked base u f n rows ws top (omega arith) small.1.1 s)))
