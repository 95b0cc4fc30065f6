-- ===== src/Ramfs.antt =====
-- kernel/src/fs/ramfs.rs: files as growing byte arrays, and the list of paths. An
-- `Arc<IrqMutex<RamfsNode>>` is an index into the store `nodes`, which only grows: a handle keeps its
-- node after the path is gone.
pub mod Bytes
pub mod Tree
use ferrum_os.Prelude.{
  ℕ, ◌+◌, ◌^◌, ◌-◌, Bool, true, false, ◌&&◌, Option, none, some, List, [], ◌∷◌, ◌++◌, ltb, leb,
  ◌==◌, if◌then◌else◌, not, length, get_elem?, set, take, drop, replicate, Result, ok, err,
  not_found, file_exists,
}
use ferrum_os.Paths.{Str, slash, is_empty}

pub data FileType : Type 0 where
  regular directory : FileType

pub record RamfsNode : Type 0 where
  pub file_type : FileType
  pub bytes : List ℕ

-- `read_inner` into a buffer of `count` bytes: the bytes that it copies
unfoldable pub read_inner : RamfsNode → ℕ → ℕ → List ℕ
read_inner node offset count =
    if leb (length node.bytes) offset then [] else take count (drop offset node.bytes)

-- `Vec::resize(end, 0)` of a shorter vector
abbrev pub grow : List ℕ → ℕ → List ℕ
grow bytes end = if ltb (length bytes) end then bytes ++ replicate (end - length bytes) 0 else bytes

-- `copy_from_slice` into `bytes[offset..end]`
abbrev pub overwrite : List ℕ → ℕ → List ℕ → List ℕ
overwrite bytes offset buf = take offset bytes ++ (buf ++ drop (offset + length buf) bytes)

abbrev pub written_node : RamfsNode → ℕ → List ℕ → RamfsNode
written_node node offset buf = record node {
  bytes = overwrite (grow node.bytes (offset + length buf)) offset buf;
}

-- A vector holds at most `isize::MAX` bytes, so an end behind that is a panic, `none`: of `resize`, or,
-- where the sum wraps, of the slice from `offset` to an end before it.
unfoldable pub write_inner : RamfsNode → ℕ → List ℕ → Option RamfsNode
write_inner node offset buf =
    if ltb (offset + length buf) (2 ^ 63) then some (written_node node offset buf) else none

pub record Entry : Type 0 where
  pub path : Str
  pub node : ℕ

pub record Ramfs : Type 0 where
  pub entries : List Entry
  pub nodes : List RamfsNode

abbrev pub str_eq : Str → Str → Bool
str_eq [] [] = true
str_eq [] (d ∷ ds) = false
str_eq (c ∷ cs) [] = false
str_eq (c ∷ cs) (d ∷ ds) = c == d && str_eq cs ds

-- `entries.iter().find(|e| e.path == path)`
unfoldable pub find_entry : List Entry → Str → Option Entry
find_entry [] path = none
find_entry (e ∷ es) path = if str_eq e.path path then some e else find_entry es path

-- `open`: the node that the handle refers to
abbrev pub node_of : Option Entry → Option ℕ
node_of none = none
node_of (some e) = some e.node

unfoldable pub open_node : Ramfs → Str → Option ℕ
unfolding find_entry
open_node fs path = node_of (find_entry fs.entries path)

-- a new entry with a new node behind the others
abbrev pub add_entry : Ramfs → Str → FileType → List ℕ → Ramfs
add_entry fs path file_type bytes = record {
  entries = fs.entries ++ record { path = path; node = length fs.nodes } ∷ [];
  nodes = fs.nodes ++ record { file_type = file_type; bytes = bytes } ∷ [];
}

abbrev pub create_at : Ramfs → Str → FileType → Option ℕ → Result Ramfs
create_at fs path file_type (some n) = err file_exists
create_at fs path file_type none = ok (add_entry fs path file_type [])

unfoldable pub create : Ramfs → Str → FileType → Result Ramfs
unfolding open_node
create fs path file_type = create_at fs path file_type (open_node fs path)

abbrev pub with_data : List ℕ → Option RamfsNode → List RamfsNode → ℕ → List RamfsNode
with_data bytes none nodes n = nodes
with_data bytes (some node) nodes n = set nodes n (record node { bytes = bytes })

abbrev pub write_at : Ramfs → Str → List ℕ → Option ℕ → Ramfs
write_at fs path bytes (some n) = record fs {
  nodes = with_data bytes (get_elem? fs.nodes n) fs.nodes n;
}
write_at fs path bytes none = add_entry fs path regular bytes

unfoldable pub write_file : Ramfs → Str → List ℕ → Ramfs
unfolding open_node
write_file fs path bytes = write_at fs path bytes (open_node fs path)

abbrev pub mkdir_at : Ramfs → Str → Option ℕ → Ramfs
mkdir_at fs path (some n) = fs
mkdir_at fs path none = add_entry fs path directory []

unfoldable pub mkdir : Ramfs → Str → Ramfs
unfolding open_node
mkdir fs path = mkdir_at fs path (open_node fs path)

-- the list without the first entry of that path
unfoldable pub remove_entry : List Entry → Str → List Entry
remove_entry [] path = []
remove_entry (e ∷ es) path = if str_eq e.path path then es else e ∷ remove_entry es path

abbrev pub unlink_at : Ramfs → Str → Option ℕ → Result Ramfs
unlink_at fs path none = err not_found
unlink_at fs path (some n) = ok (record fs { entries = remove_entry fs.entries path })

unfoldable pub unlink : Ramfs → Str → Result Ramfs
unfolding open_node remove_entry
unlink fs path = unlink_at fs path (open_node fs path)

-- the list with the first entry of that path under a new path
unfoldable pub rename_entry : List Entry → Str → Str → List Entry
rename_entry [] old new = []
rename_entry (e ∷ es) old new =
    if str_eq e.path old then record e { path = new } ∷ es else e ∷ rename_entry es old new

abbrev pub rename_at : Ramfs → Str → Str → Option ℕ → Result Ramfs
rename_at fs old new none = err not_found
rename_at fs old new (some n) = ok (record fs { entries = rename_entry fs.entries old new })

unfoldable pub rename : Ramfs → Str → Str → Result Ramfs
unfolding open_node rename_entry
rename fs old new = rename_at fs old new (open_node fs old)

abbrev pub strip_prefix : Str → Str → Option Str
strip_prefix [] s = some s
strip_prefix (c ∷ cs) [] = none
strip_prefix (c ∷ cs) (d ∷ ds) = if c == d then strip_prefix cs ds else none

unfoldable pub has_slash : Str → Bool
has_slash [] = false
has_slash (c ∷ cs) = if c == slash then true else has_slash cs

abbrev pub name_in : Option Str → List Str → List Str
name_in none names = names
name_in (some rest) names =
    if not (is_empty rest) && not (has_slash rest) then rest ∷ names else names

unfoldable pub names_under : Str → List Entry → List Str
unfolding has_slash
names_under prefix [] = []
names_under prefix (e ∷ es) = name_in (strip_prefix prefix e.path) (names_under prefix es)

unfoldable pub list_dir : Ramfs → Str → List Str
unfolding names_under
list_dir fs dir =
    let prefix = if str_eq dir (slash ∷ []) then slash ∷ [] else dir ++ slash ∷ [] in
    names_under prefix fs.entries
