-- ===== src/Io/Names/Stat.antt =====
-- stat and fstat of kernel/src/syscall.rs, and the struct that they write to user memory.
use ferrum_os.Prelude.{
  ℕ, ◌+◌, ◌/◌, Option, none, some, List, ◌++◌, if◌then◌else◌, length, replicate, get_elem?,
  le_bytes,
}
use ferrum_os.Fd.{OpenFile, FdKind, file, directory, VfsNode}
use ferrum_os.Procs.{errno}
use ferrum_os.Paths.{Str, resolve_path}
use ferrum_os.Ramfs.{
  Ramfs, RamfsNode, FileType, regular, str_eq, open_node, list_dir, write_file, mkdir, rename,
  unlink,
}
use ferrum_os.Ramfs
use ferrum_os.Io.{System, Answer, returns, put_bytes, read_user_cstr, open_file_of, node_at}
use ferrum_os.Io.Names.{with_path, has_entries}

-- `LinuxStat`, without the fields that stay zero
pub record LinuxStat : Type 0 where
  pub st_nlink : ℕ
  pub st_mode : ℕ
  pub st_size : ℕ
  pub st_blksize : ℕ
  pub st_blocks : ℕ

-- S_IFDIR | 0o755 and S_IFREG | 0o644
abbrev pub mode_of : FileType → ℕ
mode_of Ramfs.directory = 0o040755
mode_of regular = 0o100644

abbrev pub fill_stat : FileType → ℕ → LinuxStat
fill_stat file_type size = record {
  st_nlink = 1;
  st_mode = mode_of file_type;
  st_size = size;
  st_blksize = 4096;
  st_blocks = (size + 511) / 512;
}

-- the 144 bytes of the `repr(C)` struct
unfoldable pub stat_bytes : LinuxStat → List ℕ
unfolding le_bytes
stat_bytes st =
    replicate 16 0
    ++ (le_bytes 8 st.st_nlink
        ++ (le_bytes 4 st.st_mode
            ++ (replicate 20 0
                ++ (le_bytes 8 st.st_size
                    ++ (le_bytes 8 st.st_blksize ++ (le_bytes 8 st.st_blocks ++ replicate 72 0))))))

abbrev pub put_stat : System → ℕ → FileType → ℕ → Answer
put_stat s statbuf file_type size =
    returns 0 (put_bytes s statbuf (stat_bytes (fill_stat file_type size)))

abbrev pub stat_node : System → ℕ → Option RamfsNode → Answer
stat_node s statbuf none = returns (errno 2) s
stat_node s statbuf (some node) = put_stat s statbuf node.file_type (length node.bytes)

-- A node that an entry names is in the store, so that `none` stands for a path without an entry.
abbrev pub node_at_path : Ramfs → Option ℕ → Option RamfsNode
node_at_path fs none = none
node_at_path fs (some n) = get_elem? fs.nodes n

abbrev pub stat_path : ℕ → System → Str → Answer
stat_path statbuf s path =
    if has_entries s.fs path
    then put_stat s statbuf Ramfs.directory 0
    else stat_node s statbuf (node_at_path s.fs (open_node s.fs path))

-- newfstatat is the same call on other registers
unfoldable pub syscall_stat : ℕ → ℕ → System → Answer
unfolding read_user_cstr resolve_path open_node list_dir stat_bytes
syscall_stat ptr statbuf s = with_path s ptr (stat_path statbuf s)

abbrev pub fstat_file : System → ℕ → Option RamfsNode → Answer
fstat_file s statbuf none = put_stat s statbuf regular 0
fstat_file s statbuf (some node) = put_stat s statbuf node.file_type (length node.bytes)

abbrev pub handle_node : Ramfs → Option VfsNode → Option RamfsNode
handle_node fs none = none
handle_node fs (some handle) = node_at fs handle

abbrev pub fstat_kind : System → ℕ → OpenFile → FdKind → Answer
fstat_kind s statbuf f directory = put_stat s statbuf Ramfs.directory 0
fstat_kind s statbuf f file = fstat_file s statbuf (handle_node s.fs f.node)
fstat_kind s statbuf f _ = put_stat s statbuf regular 0

abbrev pub fstat_open : System → ℕ → Option (ℕ × OpenFile) → Answer
fstat_open s statbuf none = returns (errno 9) s
fstat_open s statbuf (some (entry, f)) = fstat_kind s statbuf f f.kind

unfoldable pub syscall_fstat : ℕ → ℕ → System → Answer
unfolding open_file_of stat_bytes
syscall_fstat fd statbuf s = fstat_open s statbuf (open_file_of s fd)
