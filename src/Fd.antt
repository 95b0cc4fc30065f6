-- ===== src/Fd.antt =====
-- kernel/src/fd.rs and kernel/src/pipe.rs: open files, pipes, and the descriptor table of a process.
-- An `Arc<SpinMutex<…>>` is an index into a store: `files` holds the open files, `pipes` the pipes.
pub mod Counts
pub mod Dup
pub mod Fork
pub mod CloseAll
use ferrum_os.Prelude.{
  ℕ, zero, suc, ◌+◌, ◌-◌, Bool, true, false, ◌&&◌, Option, none, some, List, [], ◌∷◌, ◌++◌, ltb,
  ◌==◌, if◌then◌else◌, length, get_elem?, set, replicate,
}

abbrev pub fd_max : ℕ
fd_max = 16

pub data FdKind : Type 0 where
  serial file dev_null dev_zero directory pipe : FdKind

-- a `Box<dyn VfsNode>`: a handle on a node of the RAM file system, or the text of a procfs file
pub data VfsNode : Type 0 where
  ramfs : ℕ → VfsNode
  procfs : List ℕ → VfsNode

pub record OpenFile : Type 0 where
  pub kind : FdKind
  pub readable : Bool
  pub writable : Bool
  pub append : Bool
  pub node : Option VfsNode
  pub pipe_ref : Option ℕ
  pub offset : ℕ
  pub dir_entries : Option (List (List ℕ))

pub record PipeInner : Type 0 where
  pub buf : List ℕ
  pub write_ends : ℕ
  pub read_ends : ℕ

pub record Objects : Type 0 where
  pub files : List OpenFile
  pub pipes : List PipeInner

abbrev pub FdTable : Type 0
FdTable = List (Option ℕ)

abbrev pub open_file : FdKind → Bool → Bool → OpenFile
open_file kind readable writable = record {
  kind = kind;
  readable = readable;
  writable = writable;
  append = false;
  node = none;
  pipe_ref = none;
  offset = 0;
  dir_entries = none;
}

abbrev pub pipe_read : ℕ → OpenFile
pipe_read p = let f = open_file pipe true false in record f { pipe_ref = some p }

abbrev pub pipe_write : ℕ → OpenFile
pipe_write p = let f = open_file pipe false true in record f { pipe_ref = some p }

-- `stdin` and `stdout`, which are alike
abbrev pub stdio : OpenFile
stdio = open_file serial true true

abbrev pub file_of : VfsNode → Bool → Bool → Bool → OpenFile
file_of node readable writable append =
    let f = open_file file readable writable in record f { append = append; node = some node }

abbrev pub device : FdKind → OpenFile
device kind = open_file kind true true

abbrev pub directory_of : List (List ℕ) → OpenFile
directory_of names = let f = open_file directory true false in record f { dir_entries = some names }

-- `PipeInner::new`, as `new_pipe` puts it behind an `Arc`
abbrev pub new_pipe : PipeInner
new_pipe = record { buf = []; write_ends = 1; read_ends = 1 }

-- A new object gets the index behind the last.
abbrev pub add_file : Objects → OpenFile → Objects
add_file o f = record o { files = o.files ++ f ∷ [] }

abbrev pub add_pipe : Objects → PipeInner → Objects
add_pipe o p = record o { pipes = o.pipes ++ p ∷ [] }

-- `new_stdio`: the table and the objects with the three files in them
unfoldable pub new_stdio : Objects → FdTable × Objects
new_stdio o =
    let n = length o.files in
    (
      some n ∷ some (n + 1) ∷ some (n + 2) ∷ replicate 13 none,
      add_file (add_file (add_file o stdio) stdio) stdio,
    )

unfoldable pub get : FdTable → ℕ → Option ℕ
get t fd = elim (get_elem? t fd) [ none ↦ none | some slot ↦ slot ]

-- the first free slot at or behind `minfd`, counted from `i`
unfoldable pub first_free : ℕ → ℕ → FdTable → Option ℕ
first_free minfd i [] = none
first_free minfd i (some f ∷ t) = first_free minfd (i + 1) t
first_free minfd i (none ∷ t) = if ltb i minfd then first_free minfd (i + 1) t else some i

unfoldable pub modify_at : List PipeInner → ℕ → (PipeInner → PipeInner) → List PipeInner
modify_at [] i f = []
modify_at (p ∷ ps) zero f = f p ∷ ps
modify_at (p ∷ ps) (suc i) f = p ∷ modify_at ps i f

-- One more, or one less, descriptor refers to the ends that the file holds.
abbrev pub one_if : Bool → ℕ
one_if b = if b then 1 else 0

abbrev pub more_ends : OpenFile → PipeInner → PipeInner
more_ends f p = record p {
  write_ends = p.write_ends + one_if f.writable;
  read_ends = p.read_ends + one_if f.readable;
}

abbrev pub fewer_ends : OpenFile → PipeInner → PipeInner
fewer_ends f p = record p {
  write_ends = p.write_ends - one_if f.writable;
  read_ends = p.read_ends - one_if f.readable;
}

abbrev pub on_ref :
    (OpenFile → PipeInner → PipeInner) → List PipeInner → OpenFile → Option ℕ → List PipeInner
on_ref change ps f none = ps
on_ref change ps f (some k) = modify_at ps k (change f)

abbrev pub on_file :
    (OpenFile → PipeInner → PipeInner) → List PipeInner → Option OpenFile → List PipeInner
on_file change ps none = ps
on_file change ps (some f) = on_ref change ps f f.pipe_ref

abbrev pub on_pipe : (OpenFile → PipeInner → PipeInner) → Objects → ℕ → Objects
on_pipe change o entry = record o { pipes = on_file change o.pipes (get_elem? o.files entry) }

unfoldable pub acquire : Objects → ℕ → Objects
unfolding modify_at
acquire o entry = on_pipe more_ends o entry

unfoldable pub drop_entry : Objects → ℕ → Objects
unfolding modify_at
drop_entry o entry = on_pipe fewer_ends o entry

unfoldable pub alloc : FdTable → Objects → OpenFile → Option ℕ × FdTable × Objects
unfolding first_free
alloc t o f = elim (first_free 0 0 t) [
  | none ↦ (none, t, o)
  | some i ↦ (some i, set t i (some (length o.files)), add_file o f)
]

unfoldable pub close : FdTable → Objects → ℕ → Bool × FdTable × Objects
unfolding get drop_entry
close t o fd = elim (get t fd) [
  | none ↦ (false, t, o)
  | some entry ↦ (true, set t fd none, drop_entry o entry)
]

-- `fork_clone` copies each slot; each copy is one more reference.
unfoldable pub fork_clone : FdTable → Objects → FdTable × Objects
unfolding acquire
fork_clone [] o = ([], o)
fork_clone (none ∷ t) o = let rest = fork_clone t o in (none ∷ rest.0, rest.1)
fork_clone (some entry ∷ t) o =
    let rest = fork_clone t (acquire o entry) in (some entry ∷ rest.0, rest.1)

unfoldable pub alloc_entry : FdTable → Objects → ℕ → Option ℕ × FdTable × Objects
unfolding first_free acquire
alloc_entry t o entry = elim (first_free 0 0 t) [
  | none ↦ (none, t, o)
  | some i ↦ (some i, set t i (some entry), acquire o entry)
]

unfoldable pub alloc_from : FdTable → ℕ → ℕ → Option ℕ × FdTable
unfolding first_free
alloc_from t entry minfd = elim (first_free minfd 0 t) [
  | none ↦ (none, t)
  | some i ↦ (some i, set t i (some entry))
]

unfoldable pub put : FdTable → Objects → ℕ → ℕ → FdTable × Objects
unfolding acquire
put t o fd entry = if ltb fd fd_max then (set t fd (some entry), acquire o entry) else (t, o)

-- The loops of `syscall_exit` and of the fault handler that close descriptors `fd`, `fd + 1`, ….
unfoldable pub close_all : FdTable → Objects → ℕ → ℕ → FdTable × Objects
unfolding close
close_all t o fd zero = (t, o)
close_all t o fd (suc n) = let c = close t o fd in close_all c.1 c.2 (fd + 1) n
