-- ===== src/Spawn/Resume.antt =====
-- kernel/src/process.rs: what a new process finds when `do_switch` loads its first context.
use ferrum_os.Prelude.{
  ℕ, zero, suc, ◌+◌, ◌-◌, ◌*◌, ◌<◌, ◌≤◌, ◌≡◌, refl, sym, ap, ◌∙◌, true, ◌&&◌, if◌then◌else◌, leb,
  Option, none, some, List, [], ◌∷◌, arith, ltb, leb, u64_mod, get_elem?,
}
use mathlib.Core.Path.{subst}
use ferrum_os.Machine.{Machine, Ends, Ends-and_then, Ends-map, pure, ◌>>◌, update, write}
use ferrum_os.Sched.{Context}
use ferrum_os.Spawn.{
  Kernel, kernel_virt_base, phys_to_virt, write_words, zero_context, do_switch, iretq_trampoline,
  user_stack,
}
use ferrum_os.Spawn.Fork.{
  SyscallFrame, frame_words, load_frame, fork_child_trampoline, fork_stack, kstack_len, frame_size,
}

abbrev pub WordsAt : (ℕ → ℕ) → ℕ → List ℕ → Type 0
WordsAt mem addr [] = Unit {0}
WordsAt mem addr (w ∷ ws) = (mem addr ≡ w) × WordsAt mem (addr + 8) ws

abbrev Written : ℕ → List ℕ → Machine → Unit {0} → Machine → Type 0
Written addr ws m u m' = WordsAt m'.mem addr ws × ((b : ℕ) → b < addr → m'.mem b ≡ m.mem b)

write_words-Written :
    (addr : ℕ) (ws : List ℕ) (m : Machine) → Ends (Written addr ws m) (write_words addr ws m)
unfolding write_words
write_words-Written addr [] m = (tt, λ b lt. refl)
write_words-Written addr (w ∷ ws) m =
    go (write_words (addr + 8) ws (record m { mem = update m.mem addr w }))
      (write_words-Written (addr + 8) ws (record m { mem = update m.mem addr w }))
  where
    go :
        (r : Option (Unit {0} × Machine))
        → Ends (Written (addr + 8) ws (record m { mem = update m.mem addr w })) r
        → Ends (Written addr (w ∷ ws) m) r
    go none h = h
    go (some (u, m')) (ws_at, below) = (
      (below addr (omega arith) ∙ ground arith, ws_at),
      λ b lt. below b (omega (arith, lt)) ∙ ground (arith, lt),
    )

WordsAt-nth :
    (mem : ℕ → ℕ) (addr : ℕ) (ws : List ℕ) (i w : ℕ)
    → WordsAt mem addr ws
    → get_elem? ws i ≡ some w
    → mem (addr + 8 * i) ≡ w
WordsAt-nth mem addr [] i w h e = absurd (ground arith)
WordsAt-nth mem addr (v ∷ ws) zero w h e = ap mem (omega arith) ∙ h.0 ∙ ground arith
WordsAt-nth mem addr (v ∷ ws) (suc i) w h e =
    let moved : addr + 8 * suc i ≡ addr + 8 + 8 * i = omega arith in
    ap mem moved ∙ WordsAt-nth mem (addr + 8) ws i w h.1 e

pub load_frame-words :
    (mem : ℕ → ℕ) (base : ℕ) (f : SyscallFrame)
    → WordsAt mem base (frame_words f)
    → load_frame mem base ≡ f
unfolding load_frame
load_frame-words mem base f h =
    let at = WordsAt-nth mem base (frame_words f) in
    cc (
      at 0 _ h refl,
      at 1 _ h refl,
      at 2 _ h refl,
      at 3 _ h refl,
      at 4 _ h refl,
      at 5 _ h refl,
      at 6 _ h refl,
      at 7 _ h refl,
      at 8 _ h refl,
      at 9 _ h refl,
      at 10 _ h refl,
      at 11 _ h refl,
      at 12 _ h refl,
      at 13 _ h refl,
      at 14 _ h refl,
      at 15 _ h refl,
    )

pub WordsAt-same :
    (mem mem' : ℕ → ℕ) (addr : ℕ) (ws : List ℕ)
    → ((b : ℕ) → addr ≤ b → mem' b ≡ mem b)
    → WordsAt mem addr ws
    → WordsAt mem' addr ws
WordsAt-same mem mem' addr [] same h = tt
WordsAt-same mem mem' addr (w ∷ ws) same h = (
  same addr (omega arith) ∙ h.0,
  WordsAt-same mem mem' (addr + 8) ws (λ b le. same b (omega arith)) h.1,
)

-- When `do_switch` loads the context, it goes on at the trampoline, which enters user mode with the
-- registers of the frame.
abbrev pub Resumes : Kernel → Context → SyscallFrame → Context → Machine → Type 0
Resumes k caller frame context m =
    let cpu = (do_switch m.mem caller context).1 in
    (cpu.rip ≡ k.fork_child_entry) × (fork_child_trampoline m.mem cpu.saved.rsp ≡ frame)

abbrev in_stack : ℕ → ℕ
in_stack kstack = kernel_virt_base + kstack + kstack_len - frame_size

stack_cell :
    (kstack : ℕ) → in_stack kstack - 8 - kernel_virt_base ≡ kstack + kstack_len - frame_size - 8
stack_cell kstack = omega arith

frame_cell :
    (kstack : ℕ) → in_stack kstack - 8 + 8 - kernel_virt_base ≡ kstack + kstack_len - frame_size
frame_cell kstack = omega arith

switch-Resumes :
    (k : Kernel) (kstack : ℕ) (caller : Context) (frame : SyscallFrame) (m : Machine)
    → WordsAt m.mem (kstack + kstack_len - frame_size) (frame_words frame)
    → let base = kstack + kstack_len - frame_size in
      let mem = update m.mem (base - 8) k.fork_child_entry in
      Resumes k caller frame
        (record zero_context { rbp = in_stack kstack; rsp = in_stack kstack - 8 })
        (record m { mem = mem })
unfolding do_switch fork_child_trampoline
switch-Resumes k kstack caller frame m h =
    let base = kstack + kstack_len - frame_size in
    let mem = update m.mem (base - 8) k.fork_child_entry in
    let kept : WordsAt mem base (frame_words frame) =
      WordsAt-same m.mem mem base (frame_words frame) (λ b le. ground (arith, le)) h in
    (
      ap mem (stack_cell kstack) ∙ ground arith,
      load_frame-words mem (in_stack kstack - 8 + 8 - kernel_virt_base) frame
          (subst (λ x. WordsAt mem x (frame_words frame)) (sym (frame_cell kstack)) kept),
    )

-- For a stack that lies in the direct map, the preparation of the child's kernel stack in fork
-- does not panic, and from its memory do_switch to the child's context goes on at
-- fork_child_trampoline, which enters user mode with the registers of the parent's frame, except
-- that rax is 0.
pub fork_stack-Resumes :
    (k : Kernel) (kstack : ℕ) (caller : Context) (frame : SyscallFrame) (m : Machine)
    → kernel_virt_base + kstack + kstack_len ≤ u64_mod
    → Ends (Resumes k caller (record frame { rax = 0 })) (fork_stack k kstack frame m)
unfolding fork_stack phys_to_virt
fork_stack-Resumes k kstack caller frame m h =
    let base = kstack + kstack_len - frame_size in
    let child : SyscallFrame = record frame { rax = 0 } in
    let cleared : ℕ → ℕ = λ a. if leb kstack a && ltb a (kstack + kstack_len) then 0 else m.mem a in
    let m' : Machine = record m { mem = cleared } in
    let in_range : ltb (kernel_virt_base + kstack) u64_mod ≡ true = ground arith in
    let whole : leb (kernel_virt_base + kstack + kstack_len) u64_mod ≡ true = ground arith in
    rw (in_range, whole)
      (Ends-and_then (Written base (frame_words child) m') (Resumes k caller child)
        (write_words base (frame_words child) m')
        (λ u. do
          write (base - 8) k.fork_child_entry
          pure (record zero_context { rbp = in_stack kstack; rsp = in_stack kstack - 8 }))
        (write_words-Written base (frame_words child) m')
        (λ u m'' h. switch-Resumes k kstack caller child m'' h.0))

-- When `do_switch` loads a context with that stack pointer, it goes on at the trampoline, which
-- enters user mode at the entry point, with interrupts on and the given stack.
abbrev Enters : Kernel → Context → ℕ → ℕ → ℕ → Machine → Type 0
Enters k caller rsp entry_point user_rsp m =
    let cpu = (do_switch m.mem caller (record zero_context { rsp = rsp })).1 in
    (cpu.rip ≡ k.iretq_entry)
    × (iretq_trampoline m.mem cpu.saved.rsp ≡ record {
      rip = entry_point;
      cs = k.user_cs;
      rflags = 0x202;
      rsp = user_rsp;
      ss = k.user_ss;
    })

abbrev entry_words : Kernel → ℕ → ℕ → List ℕ
entry_words k entry_point rsp =
    k.iretq_entry ∷ entry_point ∷ k.user_cs ∷ 0x202 ∷ rsp ∷ k.user_ss ∷ []

entry-Enters :
    (k : Kernel) (caller : Context) (top entry_point rsp : ℕ) (m : Machine)
    → 48 ≤ top
    → WordsAt m.mem (top - 48) (entry_words k entry_point rsp)
    → Enters k caller (kernel_virt_base + top - 48) entry_point rsp m
unfolding do_switch iretq_trampoline
entry-Enters k caller top entry_point rsp m h words =
    let first : kernel_virt_base + top - 48 - kernel_virt_base ≡ top - 48 = omega arith in
    let second : kernel_virt_base + top - 48 + 8 - kernel_virt_base ≡ top - 48 + 8 = omega arith in
    let at =
      WordsAt-nth m.mem (top - 48 + 8) (entry_point ∷ k.user_cs ∷ 0x202 ∷ rsp ∷ k.user_ss ∷ []) in
    rw (first, second)
      (
        words.0,
        cc (
          at 0 _ words.1 refl,
          at 1 _ words.1 refl,
          at 2 _ words.1 refl,
          at 3 _ words.1 refl,
          at 4 _ words.1 refl,
        ),
      )

-- The preparation of a kernel stack of at least 48 bytes for a new user process does not panic,
-- and from its memory do_switch to a context 48 bytes below the top goes on at iretq_trampoline,
-- which enters user mode at the entry point, on the given user stack, with the user selectors and
-- interrupts on.
user_stack-Enters :
    (k : Kernel) (caller : Context) (kstack kstack_len entry_point rsp : ℕ) (m : Machine)
    → 48 ≤ kstack_len
    → Ends
        (λ u m'. Enters k caller (kernel_virt_base + (kstack + kstack_len) - 48) entry_point rsp m')
        (user_stack k kstack kstack_len entry_point rsp m)
unfolding user_stack
user_stack-Enters k caller kstack kstack_len entry_point rsp m h =
    let cleared : ℕ → ℕ = λ a. if leb kstack a && ltb a (kstack + kstack_len) then 0 else m.mem a in
    let m' : Machine = record m { mem = cleared } in
    Ends-map (Written (kstack + kstack_len - 48) (entry_words k entry_point rsp) m') _
      (write_words (kstack + kstack_len - 48) (entry_words k entry_point rsp) m')
      (write_words-Written (kstack + kstack_len - 48) (entry_words k entry_point rsp) m')
      (λ u m'' w. entry-Enters k caller (kstack + kstack_len) entry_point rsp m'' (omega arith) w.0)
