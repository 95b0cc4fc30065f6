-- ===== src/Exec/Vectors.antt =====
-- `build_argv_envp_stack` of kernel/src/syscall.rs on flat memory: the vector of arguments, environment
-- and auxiliary rows, as it is pushed and as it is read.
use ferrum_os.Prelude.{
  ℕ, zero, suc, ◌+◌, ◌-◌, ◌*◌, ◌/◌, ◌%◌, ◌≤◌, ◌<◌, ◌≡◌, refl, ap, ◌∙◌, false, some, List, [], ◌∷◌,
  ◌++◌, arith, length, ◌==◌, if◌then◌else◌, u64_mod, Bool-cases, inl, inr, ◌≢◌,
}
use mathlib.Core.Path.{subst}
use ferrum_os.Paths.{Str}
use ferrum_os.Io.{store_bytes, read_user_cstr}
use ferrum_os.Exec.{load_word, on_cstr, on_item, cstr_items, read_user_cstr_array}
use ferrum_os.Exec.Stack.{
  Frame, Start, auxv, align_stack, total_words, push_word, push_words, push_rows, push_vectors,
}
use ferrum_os.Exec.Words.{
  Memory, framed, sub64-eq, WordsIn, Stacked, Stacked-at, AreWords, row_words, push_word-Stacked,
  push_words-Stacked, push_rows-Stacked,
}
use ferrum_os.Exec.Pushed.{Points}

nonzero : (m : Memory) (x : ℕ) (s : Str) → read_user_cstr m x 256 ≡ some s → (x == 0) ≡ false
unfolding read_user_cstr
nonzero m x s h = ground (arith, h)

on_item-reads :
    (m : Memory) (x : ℕ) (s : Str) (rest : List Str)
    → read_user_cstr m x 256 ≡ some s
    → on_item m x rest ≡ s ∷ rest
on_item-reads m x s rest h =
    ap (λ b. if b then [] else on_cstr (read_user_cstr m x 256) rest) (nonzero m x s h)
    ∙ ap (λ r. on_cstr r rest) h

-- Words that point to strings, up to a zero word, are read as the strings.
cstr_items-Points :
    (m : Memory) (a lo n : ℕ) (ps ws : List ℕ) (ss : List Str)
    → WordsIn m a (ps ++ 0 ∷ ws)
    → Points m lo ps ss
    → length ss ≤ n
    → cstr_items m a n ≡ ss
unfolding cstr_items
cstr_items-Points m a lo zero [] ws [] w p le = refl
cstr_items-Points m a lo (suc n) [] ws [] w p le =
    ap (λ e. on_item m e (cstr_items m (a + 8) n)) w.0
cstr_items-Points m a lo n [] ws (s ∷ ss) w p le = absurd p
cstr_items-Points m a lo n (x ∷ ps) ws [] w p le = absurd p
cstr_items-Points m a lo zero (x ∷ ps) ws (s ∷ ss) w p le = absurd (omega arith)
cstr_items-Points m a lo (suc n) (x ∷ ps) ws (s ∷ ss) w (above, small, reads, rest) le =
    let later = cstr_items-Points m (a + 8) lo n ps ws ss w.1 rest (omega (arith, le)) in
    ap (λ e. on_item m e (cstr_items m (a + 8) n)) w.0
    ∙ on_item-reads m x s (cstr_items m (a + 8) n) reads
    ∙ ap (λ r. s ∷ r) later

WordsIn-drop :
    (m : Memory) (a : ℕ) (ps ws : List ℕ)
    → WordsIn m a (ps ++ ws)
    → WordsIn m (a + 8 * length ps) ws
WordsIn-drop m a [] ws w = subst (λ x. WordsIn m x ws) (omega arith) w
WordsIn-drop m a (p ∷ ps) ws w =
    let e : a + 8 + 8 * length ps ≡ a + 8 * suc (length ps) = omega arith in
    subst (λ x. WordsIn m x ws) e (WordsIn-drop m (a + 8) ps ws w.1)

pub Points-length :
    (m : Memory) (lo : ℕ) (ps : List ℕ) (ss : List Str) → Points m lo ps ss → length ps ≡ length ss
Points-length m lo [] [] p = refl
Points-length m lo [] (s ∷ ss) p = absurd p
Points-length m lo (x ∷ ps) [] p = absurd p
Points-length m lo (x ∷ ps) (s ∷ ss) p = ap suc (Points-length m lo ps ss p.3)

pub Points-AreWords :
    (m : Memory) (lo : ℕ) (ps : List ℕ) (ss : List Str) → Points m lo ps ss → AreWords ps
Points-AreWords m lo [] ss p = tt
Points-AreWords m lo (x ∷ ps) [] p = absurd p
Points-AreWords m lo (x ∷ ps) (s ∷ ss) p = (p.1, Points-AreWords m lo ps ss p.3)

pub align_stack_lem :
    (addr n : ℕ)
    → addr < u64_mod
    → 24 + 8 * n ≤ addr
    → (align_stack addr n ≤ addr)
      × (addr ≤ align_stack addr n + 23)
      × ((align_stack addr n - 8 * n) % 16 ≡ 0)
unfolding align_stack
align_stack_lem addr n top h = elim (Bool-cases (n % 2 == 0)) [
  | inl c ↦ rw c (omega arith, omega arith, even n (addr / 16) (ground arith) (omega arith))
  | inr c ↦
      let moved = sub64-eq (addr / 16 * 16) 8 (omega arith) (omega arith) in
      rw (c, moved) (omega arith, omega arith, odd n (addr / 16) (ground arith) (omega arith))
]
  where
    even : (n q : ℕ) → n % 2 ≡ 0 → 8 * n ≤ q * 16 → (q * 16 - 8 * n) % 16 ≡ 0
    even n q e le = omega arith

    odd : (n q : ℕ) → n % 2 ≢ 0 → 8 * n + 8 ≤ q * 16 → (q * 16 - 8 - 8 * n) % 16 ≡ 0
    odd n q e le = omega (arith, e)

-- The fields of the program's header are words.
abbrev pub HasWords : Start → Type 0
HasWords s =
    (s.elf_entry < u64_mod)
    × (s.elf_phdr_vaddr < u64_mod)
    × (s.elf_phent < u64_mod)
    × (s.elf_phnum < u64_mod)

auxv-AreWords : (s : Start) (p : ℕ) → HasWords s → p < u64_mod → AreWords (row_words (auxv s p))
unfolding auxv row_words
auxv-AreWords s p h k = ground (arith, h, k)

abbrev vector : Start → List ℕ → List ℕ → ℕ → List ℕ
vector s aps eps p = length s.argv ∷ (aps ++ 0 ∷ (eps ++ 0 ∷ (row_words (auxv s p) ++ [])))

pub push_vectors-Stacked :
    (s : Start) (aps eps : List ℕ) (f : Frame Memory)
    → f.addr < u64_mod
    → HasWords s
    → AreWords aps
    → AreWords eps
    → length aps ≡ length s.argv
    → length eps ≡ length s.envp
    → 24 + 8 * total_words s (auxv s f.addr) ≤ f.addr
    → Stacked
        (align_stack f.addr (total_words s (auxv s f.addr)))
        f.memory
        (push_vectors store_bytes s aps eps f)
        (8 * total_words s (auxv s f.addr))
        (vector s aps eps f.addr)
push_vectors-Stacked s aps eps f top words aw ew al el room_left =
    let rows = auxv s f.addr in
    let n = total_words s rows in
    let (below, above, even) = align_stack_lem f.addr n top room_left in
    let base = align_stack f.addr n in
    let f0 = framed base f.memory in
    let s0 : Stacked base f.memory f0 0 [] = (omega arith, λ b le. refl, tt) in
    let f1 = push_rows store_bytes rows f0 in
    let f2 = push_word store_bytes 0 f1 in
    let f3 = push_words store_bytes eps f2 in
    let f4 = push_word store_bytes 0 f3 in
    let f5 = push_words store_bytes aps f4 in
    let ws1 = row_words rows ++ [] in
    let ws2 = eps ++ 0 ∷ ws1 in
    let ws3 = aps ++ 0 ∷ ws2 in
    let u = f.memory in
    let n1 = 0 + 16 * length rows in
    let n2 = n1 + 8 + 8 * length eps in
    let n3 = n2 + 8 + 8 * length aps in
    let wide : base < u64_mod = omega (arith, below, top) in
    let fits : n3 + 8 ≤ base = omega (arith, above, room_left, al, el) in
    let s1 =
      push_rows-Stacked base u f0 0 rows [] wide (omega (arith, fits))
        (auxv-AreWords s f.addr words top) s0 in
    let s2 = push_word-Stacked base u f1 n1 0 ws1 wide (omega (arith, fits)) (omega arith) s1 in
    let s3 = push_words-Stacked base u f2 (n1 + 8) eps (0 ∷ ws1) wide (omega (arith, fits)) ew s2 in
    let s4 = push_word-Stacked base u f3 n2 0 ws2 wide (omega (arith, fits)) (omega arith) s3 in
    let s5 = push_words-Stacked base u f4 (n2 + 8) aps (0 ∷ ws2) wide (omega (arith, fits)) aw s4 in
    let s6 =
      push_word-Stacked base u f5 n3 (length s.argv) ws3 wide (omega (arith, fits))
        (omega (arith, fits, al, wide)) s5 in
    Stacked-at base u (push_word store_bytes (length s.argv) f5) (n3 + 8) (8 * n)
      (length s.argv ∷ ws3) (omega (arith, al, el)) s6

pub length-auxv : (s : Start) (p : ℕ) → length (auxv s p) ≡ 15
unfolding auxv
length-auxv s p = refl

read_user_cstr_array-items :
    (m : Memory) (a n : ℕ) → 0 < a → read_user_cstr_array m a n ≡ cstr_items m a n
unfolding read_user_cstr_array
read_user_cstr_array-items m a n h = ground arith

-- The vector at the stack pointer, read as the program does.
pub vector-reads :
    (s : Start) (m : Memory) (sp p lo max_argv max_envp : ℕ) (aps eps : List ℕ)
    → WordsIn m sp (vector s aps eps p)
    → Points m lo aps s.argv
    → Points m lo eps s.envp
    → length s.argv ≤ max_argv
    → length s.envp ≤ max_envp
    → (load_word m sp ≡ length s.argv)
      × (read_user_cstr_array m (sp + 8) max_argv ≡ s.argv)
      × (read_user_cstr_array m (sp + 16 + 8 * length s.argv) max_envp ≡ s.envp)
vector-reads s m sp p lo max_argv max_envp aps eps w pa pe la le =
    let rest = row_words (auxv s p) ++ [] in
    let al = Points-length m lo aps s.argv pa in
    let moved : sp + 8 + 8 * length aps + 8 ≡ sp + 16 + 8 * length s.argv = omega (arith, al) in
    let env = (WordsIn-drop m (sp + 8) aps (0 ∷ (eps ++ 0 ∷ rest)) w.1).1 in
    (
      w.0,
      read_user_cstr_array-items m (sp + 8) max_argv (omega arith)
          ∙ cstr_items-Points m (sp + 8) lo max_argv aps (eps ++ 0 ∷ rest) s.argv w.1 pa la,
      read_user_cstr_array-items m (sp + 16 + 8 * length s.argv) max_envp (omega arith)
          ∙ cstr_items-Points m (sp + 16 + 8 * length s.argv) lo max_envp eps rest s.envp
              (subst (λ x. WordsIn m x (eps ++ 0 ∷ rest)) moved env) pe le,
    )
