-- ===== src/Io.antt =====
-- The state that the file system calls of kernel/src/syscall.rs act on, and their access to user
-- memory, for a current process that runs: the guards for a missing one are not repeated here.
-- Handlers read and write user memory through the caller's pointers, byte by byte;
-- `write_to_user` asks the page table first, and `mapped` is its answer for each page.
pub mod Buffers
pub mod Console
pub mod Files
pub mod Names
pub mod Listing
pub mod Info
use ferrum_os.Prelude.{
  ℕ, ◌≡◌, refl, zero, suc, ◌+◌, ◌-◌, ◌*◌, ◌/◌, ◌%◌, ◌^◌, Bool, true, false, ◌&&◌, Option, none,
  some, List, [], ◌∷◌, ◌++◌, ltb, leb, ◌==◌, if◌then◌else◌, min, length, get_elem?, set, take, drop,
  page_size,
}
use ferrum_os.Fd.{Objects, OpenFile, FdTable, get, VfsNode, ramfs, procfs}
use ferrum_os.Paths.{Str}
use ferrum_os.Ramfs.{Ramfs, RamfsNode, FileType, regular, directory, read_inner, write_inner}

-- `table` and `cwd` are fields of the current process, `fs` is ROOTFS, and `console` is what the
-- serial line has been sent.
pub record System : Type 0 where
  pub table : FdTable
  pub objects : Objects
  pub fs : Ramfs
  pub cwd : Str
  pub user : ℕ → ℕ
  pub mapped : ℕ → Bool
  pub console : List ℕ

-- How a handler ends: with a result, with a wait for another process, or with a panic.
pub data Answer : Type 0 where
  returns : ℕ → System → Answer
  waits panics : Answer

-- A call returns `n` and leaves a state with the property.
abbrev pub AnswersWith : ℕ → (System → Type 0) → Answer → Type 0
AnswersWith n P (returns k s) = (k ≡ n) × P s
AnswersWith n P waits = ⊥
AnswersWith n P panics = ⊥

pub AnswersWith-returns :
    (n : ℕ) (P : System → Type 0) (a : Answer) (t : System)
    → a ≡ returns n t
    → P t
    → AnswersWith n P a
AnswersWith-returns n P a t e p = rw e (refl, p)

-- the bytes at a user address, and the memory with bytes stored there
unfoldable pub load_bytes : (ℕ → ℕ) → ℕ → ℕ → List ℕ
load_bytes user addr zero = []
load_bytes user addr (suc n) = user addr ∷ load_bytes user (addr + 1) n

unfoldable pub store_bytes : (ℕ → ℕ) → ℕ → List ℕ → ℕ → ℕ
store_bytes user addr [] a = user a
store_bytes user addr (b ∷ bs) a = if a == addr then b else store_bytes user (addr + 1) bs a

abbrev pub put_bytes : System → ℕ → List ℕ → System
put_bytes s addr bytes = record s { user = store_bytes s.user addr bytes }

-- `write_to_user`: one round for each page that the bytes touch, and no more rounds than bytes
unfoldable pub write_rounds : ℕ → System → ℕ → List ℕ → Bool × System
unfolding store_bytes
write_rounds fuel s vaddr [] = (true, s)
write_rounds zero s vaddr (b ∷ bs) = (false, s)
write_rounds (suc fuel) s vaddr (b ∷ bs) =
    let avail = min (page_size - vaddr % page_size) (length (b ∷ bs)) in
    let s' = put_bytes s vaddr (take avail (b ∷ bs)) in
    let rest = write_rounds fuel s' (vaddr + avail) (drop avail (b ∷ bs)) in
    if s.mapped (vaddr / page_size * page_size) then rest else (false, s)

unfoldable pub write_to_user : System → ℕ → List ℕ → Bool × System
unfolding write_rounds
write_to_user s vaddr bytes = write_rounds (length bytes) s vaddr bytes

-- `read_user_cstr`: the characters up to a zero byte, which must come among the first `max`
unfoldable pub cstr : (ℕ → ℕ) → ℕ → ℕ → Option Str
cstr user addr zero = none
cstr user addr (suc max) =
    let rest = cstr user (addr + 1) max in
    if user addr == 0 then some [] else elim rest [ none ↦ none | some s ↦ some (user addr ∷ s) ]

unfoldable pub read_user_cstr : (ℕ → ℕ) → ℕ → ℕ → Option Str
unfolding cstr
read_user_cstr user ptr max = if ptr == 0 then none else cstr user ptr max

-- the open file of a descriptor
abbrev pub with_entry : ℕ → Option OpenFile → Option (ℕ × OpenFile)
with_entry entry none = none
with_entry entry (some f) = some (entry, f)

abbrev pub file_at : Objects → Option ℕ → Option (ℕ × OpenFile)
file_at o none = none
file_at o (some entry) = with_entry entry (get_elem? o.files entry)

unfoldable pub open_file_of : System → ℕ → Option (ℕ × OpenFile)
unfolding get
open_file_of s fd = file_at s.objects (get s.table fd)

abbrev pub set_file : System → ℕ → OpenFile → System
set_file s entry f =
    let o = s.objects in record s { objects = record o { files = set o.files entry f } }

-- The operations of `dyn VfsNode`: those of a handle on a RAM file, and those of a procfs text. A
-- handle on a node refers to a node of the store, so `none` does not occur.
abbrev pub text_node : List ℕ → RamfsNode
text_node bytes = record { file_type = regular; bytes = bytes }

abbrev pub node_at : Ramfs → VfsNode → Option RamfsNode
node_at fs (ramfs n) = get_elem? fs.nodes n
node_at fs (procfs bytes) = some (text_node bytes)

abbrev pub node_size : Option RamfsNode → ℕ
node_size none = 0
node_size (some node) = length node.bytes

-- `stat().size`, and 0 without a node
abbrev pub size_of : Ramfs → Option VfsNode → ℕ
size_of fs none = 0
size_of fs (some handle) = node_size (node_at fs handle)

abbrev pub read_bytes : Option RamfsNode → ℕ → ℕ → List ℕ
read_bytes none offset count = []
read_bytes (some node) offset count = read_inner node offset count

-- What a write comes to: it is refused, it panics, or it leaves a file system.
pub data NodeWrite : Type 0 where
  read_only overflowed : NodeWrite
  written : Ramfs → NodeWrite

abbrev pub with_node : Ramfs → ℕ → Option RamfsNode → NodeWrite
with_node fs n none = overflowed
with_node fs n (some node) = written (record fs { nodes = set fs.nodes n node })

abbrev pub written_nodes : Ramfs → ℕ → ℕ → List ℕ → Option RamfsNode → NodeWrite
written_nodes fs n offset bytes none = written fs
written_nodes fs n offset bytes (some node) = with_node fs n (write_inner node offset bytes)

-- `write`: procfs is read-only.
abbrev pub write_node : Ramfs → VfsNode → ℕ → List ℕ → NodeWrite
write_node fs (procfs text) offset bytes = read_only
write_node fs (ramfs n) offset bytes = written_nodes fs n offset bytes (get_elem? fs.nodes n)
