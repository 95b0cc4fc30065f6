-- ===== src/Paths/Nested.antt =====
-- Paths resolved from a directory that is itself resolved, as after `syscall_chdir` of
-- kernel/src/syscall.rs.
use ferrum_os.Prelude.{
  ℕ, ◌≡◌, ◌≢◌, refl, sym, ap, false, ◌||◌, List, [], ◌∷◌, ◌++◌, ◌==◌, if◌then◌else◌, Bool-cases,
  inl, inr,
}
use ferrum_os.Paths.{
  Str, slash, onto_first, split, join, starts_with_slash, is_empty, is_dot, is_dot_dot, push, pop,
  push_all, walk, resolve_components, resolve_path,
}
use ferrum_os.Paths.Normal.{IsNormal, push_all-normal, components_plain}

split_cons : (s : Str) → (w : Str) × (ws : List Str) × (split s ≡ w ∷ ws)
unfolding split
split_cons [] = ([], [], refl)
split_cons (c ∷ cs) = elim (Bool-cases (c == slash)) [
  | inl e ↦ rw e ([], split cs, refl)
  | inr e ↦ let (w, ws, at) = split_cons cs in rw (e, at) (c ∷ w, ws, refl)
]

onto_first-append :
    (c : ℕ) (s : Str) (ws : List Str) → onto_first c (split s ++ ws) ≡ onto_first c (split s) ++ ws
onto_first-append c s ws = let (v, vs, at) = split_cons s in rw at refl

split-append_slash : (a b : Str) → split (a ++ slash ∷ b) ≡ split a ++ split b
unfolding split
split-append_slash [] b = refl
split-append_slash (c ∷ cs) b = elim (Bool-cases (c == slash)) [
  | inl e ↦ rw (e, split-append_slash cs b) refl
  | inr e ↦ rw (e, split-append_slash cs b) (onto_first-append c cs (split b))
]

walk-append : (stack xs ys : List Str) → walk stack (xs ++ ys) ≡ walk (walk stack xs) ys
unfolding walk
walk-append stack [] ys = refl
walk-append stack (c ∷ cs) ys = elim (Bool-cases (is_empty c || is_dot c)) [
  | inl e ↦ rw e (walk-append stack cs ys)
  | inr e ↦ elim (Bool-cases (is_dot_dot c)) [
    | inl d ↦ rw (e, d) (walk-append (pop stack) cs ys)
    | inr d ↦ rw (e, d) (walk-append (push stack c) cs ys)
  ]
]

-- From a normal working directory, a relative path b resolved from the directory that the
-- non-empty path a resolves to is the path a/b resolved from the working directory.
pub resolve_path-nested :
    (cwd a b : Str)
    → IsNormal cwd
    → a ≢ []
    → starts_with_slash b ≡ false
    → resolve_path (resolve_path cwd a) b ≡ resolve_path cwd (a ++ slash ∷ b)
unfolding resolve_path resolve_components
resolve_path-nested cwd [] b n ne rel = absurd (ne refl)
resolve_path-nested cwd (c ∷ cs) b n ne rel =
    rw
      (
        rel,
        push_all-normal (resolve_components cwd (c ∷ cs)) (components_plain cwd (c ∷ cs) n),
        split-append_slash (c ∷ cs) b,
      )
      (ap (λ ws. slash ∷ join ws)
        (sym (
          walk-append (if c == slash then [] else push_all [] (split cwd)) (split (c ∷ cs))
            (split b))))
