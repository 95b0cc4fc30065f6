-- ===== src/Paths/Normal.antt =====
-- The paths that `resolve_path` of kernel/src/syscall.rs returns.
use ferrum_os.Prelude.{
  ℕ, ◌≡◌, refl, sym, ◌∙◌, ap, Bool, true, false, not, ◌&&◌, ◌||◌, List, [], ◌∷◌, ◌++◌, ◌==◌, arith,
  Bool-cases, inl, inr,
}
use ferrum_os.Paths.{
  Str, slash, onto_first, split, join, starts_with_slash, is_empty, is_dot, is_dot_dot, push, pop,
  push_all, walk, resolve_components, resolve_path,
}

unfoldable pub no_slash : Str → Bool
no_slash [] = true
no_slash (c ∷ cs) = not (c == slash) && no_slash cs

-- a component that names an entry of a directory
abbrev pub is_plain : Str → Bool
is_plain c = not (is_empty c) && not (is_dot c) && not (is_dot_dot c) && no_slash c

unfoldable pub all : (Str → Bool) → List Str → Bool
all test [] = true
all test (c ∷ cs) = test c && all test cs

all-push :
    (test : Str → Bool) (ws : List Str) (c : Str)
    → all test ws ≡ true
    → test c ≡ true
    → all test (push ws c) ≡ true
unfolding all
all-push test [] c h t = rw t refl
all-push test (w ∷ ws) c h t = ground (arith, all-push test ws c (ground arith) t)

all-pop : (test : Str → Bool) (ws : List Str) → all test ws ≡ true → all test (pop ws) ≡ true
unfolding all pop
all-pop test [] h = refl
all-pop test (w ∷ []) h = refl
all-pop test (w ∷ v ∷ ws) h = ground (arith, all-pop test (v ∷ ws) (ground arith))

all-onto_first :
    (c : ℕ) (ws : List Str)
    → c == slash ≡ false
    → all no_slash ws ≡ true
    → all no_slash (onto_first c ws) ≡ true
unfolding all no_slash
all-onto_first c [] e h = rw e refl
all-onto_first c (w ∷ ws) e h = rw e h

all-split : (s : Str) → all no_slash (split s) ≡ true
unfolding split all no_slash
all-split [] = refl
all-split (c ∷ cs) = elim (Bool-cases (c == slash)) [
  | inl e ↦ rw e (all-split cs)
  | inr e ↦ rw e (all-onto_first c (split cs) e (all-split cs))
]

walk-plain :
    (stack cs : List Str)
    → all is_plain stack ≡ true
    → all no_slash cs ≡ true
    → all is_plain (walk stack cs) ≡ true
unfolding walk all
walk-plain stack [] h n = h
walk-plain stack (c ∷ cs) h n = elim (Bool-cases (is_empty c || is_dot c)) [
  | inl e ↦ rw e (walk-plain stack cs h (ground arith))
  | inr e ↦ elim (Bool-cases (is_dot_dot c)) [
    | inl d ↦ rw (e, d) (walk-plain (pop stack) cs (all-pop is_plain stack h) (ground arith))
    | inr d ↦
        rw (e, d)
          (walk-plain (push stack c) cs (all-push is_plain stack c h (ground arith)) (ground arith))
  ]
]

-- A component without a slash is one piece, and a slash ends a piece.
split-word : (w : Str) → no_slash w ≡ true → split w ≡ w ∷ []
unfolding split no_slash
split-word [] h = refl
split-word (c ∷ cs) h =
    let e : c == slash ≡ false = ground arith in rw (e, split-word cs (ground arith)) refl

split-append : (w s : Str) → no_slash w ≡ true → split (w ++ slash ∷ s) ≡ w ∷ split s
unfolding split no_slash
split-append [] s h = refl
split-append (c ∷ cs) s h =
    let e : c == slash ≡ false = ground arith in rw (e, split-append cs s (ground arith)) refl

split-join :
    (w : Str) (ws : List Str) → all no_slash (w ∷ ws) ≡ true → split (join (w ∷ ws)) ≡ w ∷ ws
unfolding join all
split-join w [] h = split-word w (ground arith)
split-join w (v ∷ ws) h =
    split-append w (join (v ∷ ws)) (ground arith) ∙ ap (λ r. w ∷ r) (split-join v ws (ground arith))

-- An absolute path of plain components, one slash before each: the root is `/`.
pub record IsNormal (path : Str) : Type 0 where
  pub components : List Str
  pub spelled : path ≡ slash ∷ join components
  pub plain : all is_plain components ≡ true

append-nil : (ws : List Str) → ws ++ [] ≡ ws
append-nil [] = refl
append-nil (w ∷ ws) = ap (λ r. w ∷ r) (append-nil ws)

push-append : (ws : List Str) (c : Str) (cs : List Str) → push ws c ++ cs ≡ ws ++ c ∷ cs
push-append [] c cs = refl
push-append (w ∷ ws) c cs = ap (λ r. w ∷ r) (push-append ws c cs)

walk-append_plain : (stack cs : List Str) → all is_plain cs ≡ true → walk stack cs ≡ stack ++ cs
unfolding walk all
walk-append_plain stack [] h = sym (append-nil stack)
walk-append_plain stack (c ∷ cs) h =
    let e : is_empty c || is_dot c ≡ false = ground arith in
    let d : is_dot_dot c ≡ false = ground arith in
    rw (e, d) (walk-append_plain (push stack c) cs (ground arith) ∙ push-append stack c cs)

push_all-append_plain :
    (stack cs : List Str) → all is_plain cs ≡ true → push_all stack cs ≡ stack ++ cs
unfolding push_all all
push_all-append_plain stack [] h = sym (append-nil stack)
push_all-append_plain stack (c ∷ cs) h =
    let e : is_empty c ≡ false = ground arith in
    rw e (push_all-append_plain (push stack c) cs (ground arith) ∙ push-append stack c cs)

all-no_slash : (cs : List Str) → all is_plain cs ≡ true → all no_slash cs ≡ true
unfolding all
all-no_slash [] h = refl
all-no_slash (c ∷ cs) h = ground (arith, all-no_slash cs (ground arith))

-- Reading a normal path gives its components back.
walk-normal : (cs : List Str) → all is_plain cs ≡ true → walk [] (split (slash ∷ join cs)) ≡ cs
unfolding walk split join
walk-normal [] h = refl
walk-normal (c ∷ cs) h =
    rw (split-join c cs (all-no_slash (c ∷ cs) h)) (walk-append_plain [] (c ∷ cs) h)

pub push_all-normal :
    (cs : List Str) → all is_plain cs ≡ true → push_all [] (split (slash ∷ join cs)) ≡ cs
unfolding push_all split join
push_all-normal [] h = refl
push_all-normal (c ∷ cs) h =
    rw (split-join c cs (all-no_slash (c ∷ cs) h)) (push_all-append_plain [] (c ∷ cs) h)

base_plain : (cwd : Str) → IsNormal cwd → all is_plain (push_all [] (split cwd)) ≡ true
base_plain cwd n = rw (n.spelled, push_all-normal n.components n.plain) n.plain

pub components_plain :
    (cwd raw_path : Str) → IsNormal cwd → all is_plain (resolve_components cwd raw_path) ≡ true
unfolding resolve_components all
components_plain cwd raw_path n = elim (Bool-cases (starts_with_slash raw_path)) [
  | inl c ↦ rw c (walk-plain [] (split raw_path) refl (all-split raw_path))
  | inr c ↦ rw c (
      walk-plain (push_all [] (split cwd)) (split raw_path) (base_plain cwd n) (all-split raw_path))
]

-- From a normal working directory (a slash before each component, none of them empty, a dot or two
-- dots) every path resolves to a normal path.
pub resolve_path-IsNormal :
    (cwd raw_path : Str) → IsNormal cwd → IsNormal (resolve_path cwd raw_path)
unfolding resolve_path
resolve_path-IsNormal cwd raw_path n = record {
  components = resolve_components cwd raw_path;
  spelled = refl;
  plain = components_plain cwd raw_path n;
}

normal_components :
    (cwd path : Str) (n : IsNormal path) → resolve_components cwd path ≡ n.components
unfolding resolve_components
normal_components cwd path n = rw n.spelled (walk-normal n.components n.plain)

-- A normal path resolves to itself from every working directory.
pub resolve_path-normal : (cwd path : Str) → IsNormal path → resolve_path cwd path ≡ path
unfolding resolve_path
resolve_path-normal cwd path n =
    ap (λ cs. slash ∷ join cs) (normal_components cwd path n) ∙ sym n.spelled
