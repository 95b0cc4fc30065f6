-- ===== src/Paths.antt =====
-- `resolve_path` of kernel/src/syscall.rs: from the working directory and a path to an absolute
-- path. A string is the list of its characters; 47 is `/` and 46 is `.`.
pub mod Normal
pub mod Nested
use ferrum_os.Prelude.{
  ℕ, zero, suc, ◌+◌, Bool, true, false, not, ◌&&◌, ◌||◌, Option, none, some, List, [], ◌∷◌, ◌++◌,
  ◌==◌, if◌then◌else◌,
}

abbrev pub Str : Type 0
Str = List ℕ

abbrev pub slash : ℕ
slash = 47

abbrev pub dot : ℕ
dot = 46

abbrev pub onto_first : ℕ → List Str → List Str
onto_first c [] = (c ∷ []) ∷ []
onto_first c (w ∷ ws) = (c ∷ w) ∷ ws

-- `str::split('/')`, which returns at least one piece
unfoldable pub split : Str → List Str
split [] = [] ∷ []
split (c ∷ cs) = let rest = split cs in if c == slash then [] ∷ rest else onto_first c rest

-- `[&str]::join("/")`
unfoldable pub join : List Str → Str
join [] = []
join (w ∷ []) = w
join (w ∷ v ∷ ws) = w ++ slash ∷ join (v ∷ ws)

abbrev pub starts_with_slash : Str → Bool
starts_with_slash [] = false
starts_with_slash (c ∷ cs) = c == slash

abbrev pub is_empty : Str → Bool
is_empty [] = true
is_empty (c ∷ cs) = false

abbrev pub is_dot : Str → Bool
is_dot (c ∷ []) = c == dot
is_dot _ = false

abbrev pub is_dot_dot : Str → Bool
is_dot_dot (c ∷ d ∷ []) = c == dot && d == dot
is_dot_dot _ = false

-- `Vec::push` and `Vec::pop`
abbrev pub push : List Str → Str → List Str
push stack c = stack ++ c ∷ []

unfoldable pub pop : List Str → List Str
pop [] = []
pop (w ∷ []) = []
pop (w ∷ v ∷ ws) = w ∷ pop (v ∷ ws)

-- the components of the working directory, pushed
unfoldable pub push_all : List Str → List Str → List Str
push_all stack [] = stack
push_all stack (c ∷ cs) = if is_empty c then push_all stack cs else push_all (push stack c) cs

-- the components of the path, each with its effect on the stack
unfoldable pub walk : List Str → List Str → List Str
unfolding pop
walk stack [] = stack
walk stack (c ∷ cs) =
    if is_empty c || is_dot c
    then walk stack cs
    else if is_dot_dot c
    then walk (pop stack) cs
    else walk (push stack c) cs

unfoldable pub resolve_components : Str → Str → List Str
unfolding walk push_all split
resolve_components cwd raw_path =
    let base = if starts_with_slash raw_path then [] else push_all [] (split cwd) in
    walk base (split raw_path)

unfoldable pub resolve_path : Str → Str → Str
unfolding resolve_components join
resolve_path cwd raw_path = slash ∷ join (resolve_components cwd raw_path)
