-- ===== src/Exec/Passed.antt =====
-- `build_argv_envp_stack` and `read_user_cstr_array` of kernel/src/syscall.rs: what a program that
-- starts on the stack reads.
use ferrum_os.Prelude.{
  ℕ, ◌+◌, ◌-◌, ◌*◌, ◌%◌, ◌≤◌, ◌<◌, ◌≡◌, refl, sym, ap, ◌∙◌, List, arith, length, u64_mod, le_bytes,
}
use mathlib.Core.Path.{subst}
use ferrum_os.Io.{store_bytes}
use ferrum_os.Io.Buffers.{store_bytes-outside}
use ferrum_os.Exec.{load_word, read_user_cstr_array}
use ferrum_os.Exec.Stack.{
  Frame, Start, auxv, at_random, align_stack, total_words, push_strings, push_random, push_vectors,
  build_argv_envp_stack,
}
use ferrum_os.Exec.Words.{Memory, framed, sub64-eq}
use ferrum_os.Exec.Vectors.{
  align_stack_lem, Points-length, Points-AreWords, HasWords, length-auxv, push_vectors-Stacked,
  vector-reads,
}
use ferrum_os.Exec.Pushed.{Points, Points-same, ArePassable, room, push_strings-AllPushed}

-- what the words take, the random bytes and the alignment included
abbrev pub words_room : Start → ℕ
words_room s = 8 * (length s.argv + length s.envp) + 320

-- What the program finds: the stack pointer on a multiple of 16, the number of arguments there, and
-- behind it the arguments and the environment, as the kernel itself reads such arrays; the stack
-- lies below its top and takes no more than the strings and the words need.
abbrev pub Passed : Start → ℕ → ℕ → Frame Memory → Type 0
Passed s max_argv max_envp f =
    (f.addr % 16 ≡ 0)
    × (load_word f.memory f.addr ≡ length s.argv)
    × (read_user_cstr_array f.memory (f.addr + 8) max_argv ≡ s.argv)
    × (read_user_cstr_array f.memory (f.addr + 16 + 8 * length s.argv) max_envp ≡ s.envp)
    × (s.ustack_top ≤ f.addr + (room s.envp + room s.argv + words_room s))
    × (f.addr + 16 ≤ s.ustack_top)

length-at_random : (tsc1 tsc2 : ℕ) → length (at_random tsc1 tsc2) ≡ 16
unfolding at_random le_bytes
length-at_random tsc1 tsc2 = refl

push_random-kept :
    (s : Start) (f : Frame Memory) (b : ℕ)
    → 16 ≤ f.addr
    → f.addr ≤ b
    → store_bytes f.memory (f.addr - 16) (at_random s.tsc1 s.tsc2) b ≡ f.memory b
push_random-kept s f b h le =
    store_bytes-outside f.memory (f.addr - 16) (at_random s.tsc1 s.tsc2) b
      (ground (arith, length-at_random s.tsc1 s.tsc2))

push_random-eq :
    (bytes : List ℕ) (f : Frame Memory)
    → 16 ≤ f.addr
    → f.addr < u64_mod
    → push_random store_bytes bytes f
      ≡ framed (f.addr - 16) (store_bytes f.memory (f.addr - 16) bytes)
push_random-eq bytes f h k =
    ap (λ a. framed a (store_bytes f.memory a bytes)) (sub64-eq f.addr 16 h k)

-- The last part of the builder, below the strings.
vectors-Passed :
    (s : Start) (max_argv max_envp : ℕ) (f : Frame Memory) (aps eps : List ℕ)
    → s.ustack_top < u64_mod
    → f.addr + (room s.envp + room s.argv) ≡ s.ustack_top
    → words_room s ≤ f.addr
    → HasWords s
    → Points f.memory f.addr aps s.argv
    → Points f.memory f.addr eps s.envp
    → length s.argv ≤ max_argv
    → length s.envp ≤ max_envp
    → Passed s max_argv max_envp
        (push_vectors store_bytes s aps eps (push_random store_bytes (at_random s.tsc1 s.tsc2) f))
vectors-Passed s max_argv max_envp f aps eps top at fits words pa pe la le =
    let bytes = at_random s.tsc1 s.tsc2 in
    let f3 = framed (f.addr - 16) (store_bytes f.memory (f.addr - 16) bytes) in
    let n = total_words s (auxv s f3.addr) in
    let fifteen = length-auxv s f3.addr in
    let enough : 24 + 8 * n ≤ f3.addr = omega (arith, fits, fifteen) in
    let low : f3.addr < u64_mod = omega (arith, at, top) in
    let g = push_vectors store_bytes s aps eps f3 in
    let base = align_stack f3.addr n in
    let (below, above, even) = align_stack_lem f3.addr n low enough in
    let (sp, kept, vec) =
      push_vectors-Stacked s aps eps f3 low words (Points-AreWords f.memory f.addr aps s.argv pa)
        (Points-AreWords f.memory f.addr eps s.envp pe)
        (Points-length f.memory f.addr aps s.argv pa) (Points-length f.memory f.addr eps s.envp pe)
        enough in
    let same : (b : ℕ) → f.addr ≤ b → g.memory b ≡ f.memory b =
      λ b h. kept b (omega (arith, below, h)) ∙ push_random-kept s f b (omega (arith, fits)) h in
    let (argc, args, envs) =
      vector-reads s g.memory g.addr f3.addr f.addr max_argv max_envp aps eps vec
        (Points-same g.memory f.memory f.addr f.addr aps s.argv same (omega arith) pa)
        (Points-same g.memory f.memory f.addr f.addr eps s.envp same (omega arith) pe) la le in
    let place : base - 8 * n ≡ g.addr = omega (arith, sp) in
    subst (λ x. Passed s max_argv max_envp (push_vectors store_bytes s aps eps x))
      (sym (push_random-eq bytes f (omega (arith, fits)) (omega (arith, at, top))))
      (
        subst (λ x. x % 16 ≡ 0) place even,
        argc,
        args,
        envs,
        omega (arith, at, sp, above, fifteen),
        omega (arith, at, sp, below, fits),
      )

-- On flat user memory, for arguments and an environment of strings of fewer than 256 ASCII
-- characters other than zero, at most max_argv and max_envp of them, a header of 64-bit words and
-- room below the top for the strings, one word for each and 320 bytes: the first stack pointer is
-- a multiple of 16, the word there is the number of arguments, read_user_cstr_array reads the
-- arguments behind it and the environment behind them, it lies at least 16 bytes below the top,
-- and no more than that room is used.
pub build_argv_envp_stack-Passed :
    (s : Start) (u : Memory) (max_argv max_envp : ℕ)
    → s.ustack_top < u64_mod
    → room s.envp + room s.argv + words_room s ≤ s.ustack_top
    → ArePassable s.argv
    → ArePassable s.envp
    → HasWords s
    → length s.argv ≤ max_argv
    → length s.envp ≤ max_envp
    → Passed s max_argv max_envp (build_argv_envp_stack store_bytes s u)
unfolding build_argv_envp_stack
build_argv_envp_stack-Passed s u max_argv max_envp top fits oka oke words la le =
    let f0 = framed s.ustack_top u in
    let (f1, eps) = push_strings store_bytes s.envp f0 in
    let (at1, kept1, pe) = push_strings-AllPushed f0 s.envp top (omega arith) oke in
    let (f2, aps) = push_strings store_bytes s.argv f1 in
    let (at2, kept2, pa) =
      push_strings-AllPushed f1 s.argv (omega (arith, at1, top)) (omega (arith, at1, fits)) oka in
    vectors-Passed s max_argv max_envp f2 aps eps top (omega (arith, at1, at2))
      (omega (arith, at1, at2, fits)) words pa
      (Points-same f2.memory f1.memory f1.addr f2.addr eps s.envp kept2 (omega (arith, at2)) pe) la
      le
