-- ===== src/Io/Files.antt =====
-- The system calls of kernel/src/syscall.rs on open files: read, write, pread64 and lseek, for a
-- process that runs.
pub mod RoundTrip
pub mod Seek
pub mod Vector
use ferrum_os.Prelude.{
  ℕ, zero, suc, ◌+◌, ◌-◌, ◌*◌, ◌/◌, ◌%◌, ◌^◌, Bool, true, false, ◌&&◌, Option, none, some, List, [],
  ◌∷◌, ◌++◌, ltb, leb, ◌==◌, if◌then◌else◌, min, length, get_elem?, set, take, drop, replicate,
  u64_mod, add64,
}
use ferrum_os.Fd.{
  Objects, OpenFile, FdKind, serial, file, dev_null, dev_zero, directory, pipe, PipeInner, VfsNode,
}
use ferrum_os.Procs.{errno}
use ferrum_os.Pipes.{ReadRound, taken, end_of_file, blocked, read_round, write_pipe}
use ferrum_os.Ramfs.{Ramfs, FileType, regular, RamfsNode}
use ferrum_os.Io.{
  System, Answer, returns, waits, panics, load_bytes, store_bytes, put_bytes, open_file_of,
  set_file, size_of, node_at, read_bytes, NodeWrite, read_only, overflowed, written, write_node,
}
use ferrum_os.Io.Console.{Line, read_line}

abbrev pub read_serial : System → Option Line → Answer
read_serial s none = waits
read_serial s (some l) = returns l.n (record s { user = l.user; console = l.shown })

abbrev pub empty_line : System → Line
empty_line s = record { user = s.user; n = 0; shown = s.console }

abbrev pub read_file : ℕ → ℕ → System → ℕ → OpenFile → Option VfsNode → Answer
read_file buf count s entry f none = panics
read_file buf count s entry f (some node) =
    let bytes = read_bytes (node_at s.fs node) f.offset count in
    let s' = put_bytes s buf bytes in
    returns (length bytes) (set_file s' entry (record f { offset = f.offset + length bytes }))

abbrev pub set_pipe : System → ℕ → PipeInner → System
set_pipe s k p = let o = s.objects in record s { objects = record o { pipes = set o.pipes k p } }

abbrev pub read_answer : ℕ → System → ℕ → ReadRound × PipeInner → Answer
read_answer buf s k (taken bytes, p) = returns (length bytes) (set_pipe (put_bytes s buf bytes) k p)
read_answer buf s k (end_of_file, p) = returns 0 s
read_answer buf s k (blocked, p) = waits

-- A pipe that the file refers to is in the store, so the second `none` does not occur.
abbrev pub pipe_of : Objects → Option ℕ → Option (ℕ × PipeInner)
pipe_of o none = none
pipe_of o (some k) = elim (get_elem? o.pipes k) [ none ↦ none | some p ↦ some (k, p) ]

abbrev pub read_pipe : ℕ → ℕ → System → Option (ℕ × PipeInner) → Answer
read_pipe buf count s none = panics
read_pipe buf count s (some (k, p)) = read_answer buf s k (read_round p count)

abbrev pub read_kind : ℕ → ℕ → List ℕ → System → ℕ → OpenFile → FdKind → Answer
read_kind buf count input s entry f directory = returns (errno 21) s
read_kind buf count input s entry f serial =
    read_serial s (read_line buf count input (empty_line s))
read_kind buf count input s entry f file = read_file buf count s entry f f.node
read_kind buf count input s entry f dev_null = returns 0 s
read_kind buf count input s entry f dev_zero = returns count (put_bytes s buf (replicate count 0))
read_kind buf count input s entry f pipe = read_pipe buf count s (pipe_of s.objects f.pipe_ref)

abbrev pub is_directory : FdKind → Bool
is_directory directory = true
is_directory _ = false

abbrev pub read_open : ℕ → ℕ → List ℕ → System → Option (ℕ × OpenFile) → Answer
read_open buf count input s none = returns (errno 9) s
read_open buf count input s (some (entry, f)) =
    if is_directory f.kind
    then returns (errno 21) s
    else if f.readable
    then read_kind buf count input s entry f f.kind
    else returns (errno 9) s

-- `input` is what arrives on the serial line while the call runs.
unfoldable pub syscall_read : ℕ → ℕ → ℕ → List ℕ → System → Answer
unfolding open_file_of load_bytes store_bytes read_line read_round
syscall_read fd buf count input s =
    if count == 0 then returns 0 s else read_open buf count input s (open_file_of s fd)

-- where a write of the file goes
abbrev pub write_offset : Ramfs → OpenFile → ℕ
write_offset fs f = if f.append then size_of fs f.node else f.offset

-- The file branch of write: `advance` tells whether the offset moves.
abbrev pub written_file : System → ℕ → OpenFile → Bool → ℕ → NodeWrite → Answer
written_file s entry f advance n read_only = returns (errno 5) s
written_file s entry f advance n overflowed = panics
written_file s entry f advance n (written fs) =
    let s' = record s { fs = fs } in
    returns n (if advance then set_file s' entry (record f { offset = f.offset + n }) else s')

abbrev pub write_to_file : List ℕ → System → ℕ → OpenFile → Bool → Option VfsNode → Answer
write_to_file bytes s entry f advance none = panics
write_to_file bytes s entry f advance (some node) =
    written_file s entry f advance (length bytes) (write_node s.fs node (write_offset s.fs f) bytes)

abbrev pub write_to_pipe : List ℕ → System → Option (ℕ × PipeInner) → Answer
write_to_pipe bytes s none = panics
write_to_pipe bytes s (some (k, p)) = let r = write_pipe p bytes in returns r.0 (set_pipe s k r.1)

abbrev pub write_kind : List ℕ → System → ℕ → OpenFile → Bool → FdKind → Answer
write_kind bytes s entry f advance serial =
    returns (length bytes) (record s { console = s.console ++ bytes })
write_kind bytes s entry f advance file = write_to_file bytes s entry f advance f.node
write_kind bytes s entry f advance directory = returns (errno 21) s
write_kind bytes s entry f advance dev_null = returns (length bytes) s
write_kind bytes s entry f advance dev_zero = returns (length bytes) s
write_kind bytes s entry f advance pipe = write_to_pipe bytes s (pipe_of s.objects f.pipe_ref)

abbrev pub write_open : List ℕ → System → Option (ℕ × OpenFile) → Answer
write_open bytes s none = returns (errno 9) s
write_open bytes s (some (entry, f)) =
    if f.writable then write_kind bytes s entry f true f.kind else returns (errno 9) s

unfoldable pub syscall_write : ℕ → ℕ → ℕ → System → Answer
unfolding open_file_of load_bytes write_pipe
syscall_write fd buf len s =
    if len == 0 then returns 0 s else write_open (load_bytes s.user buf len) s (open_file_of s fd)

abbrev pub pread_node : ℕ → ℕ → ℕ → System → Option VfsNode → Answer
pread_node buf count offset s none = returns (errno 9) s
pread_node buf count offset s (some node) =
    let bytes = read_bytes (node_at s.fs node) offset count in
    returns (length bytes) (put_bytes s buf bytes)

abbrev pub pread_open : ℕ → ℕ → ℕ → System → Option (ℕ × OpenFile) → Answer
pread_open buf count offset s none = returns (errno 9) s
pread_open buf count offset s (some (entry, f)) = pread_node buf count offset s f.node

unfoldable pub syscall_pread64 : ℕ → ℕ → ℕ → ℕ → System → Answer
unfolding open_file_of store_bytes
syscall_pread64 fd buf count offset s = pread_open buf count offset s (open_file_of s fd)

-- A number as an `i64`: negative from 2 ^ 63 on. Sums wrap.
abbrev pub is_negative : ℕ → Bool
is_negative w = leb (2 ^ 63) w

abbrev pub seek_target : ℕ → ℕ → ℕ → ℕ → Option ℕ
seek_target size here offset whence =
    if whence == 0
    then some offset
    else if whence == 1
    then some (add64 here offset)
    else if whence == 2
    then some (add64 size offset)
    else none

abbrev pub seek_to : System → ℕ → OpenFile → Option ℕ → Answer
seek_to s entry f none = returns (errno 22) s
seek_to s entry f (some target) =
    if is_negative target
    then returns (errno 22) s
    else returns target (set_file s entry (record f { offset = target }))

abbrev pub seek_open : ℕ → ℕ → System → Option (ℕ × OpenFile) → Answer
seek_open offset whence s none = returns (errno 9) s
seek_open offset whence s (some (entry, f)) =
    seek_to s entry f (seek_target (size_of s.fs f.node) f.offset offset whence)

-- `whence` is the low 32 bits of the argument.
unfoldable pub syscall_lseek : ℕ → ℕ → ℕ → System → Answer
unfolding open_file_of
syscall_lseek fd offset whence s = seek_open offset (whence % 2 ^ 32) s (open_file_of s fd)
