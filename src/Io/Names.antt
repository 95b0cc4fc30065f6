-- ===== src/Io/Names.antt =====
-- The system calls of kernel/src/syscall.rs that take a path: open, access, faccessat, chdir, mkdir,
-- rename and unlink, with stat in Stat, and getcwd, for a process that runs. A path is read from
-- user memory and resolved against the working directory. openat, newfstatat and unlinkat ignore
-- their descriptor and are the call without it on other registers.
pub mod Cwd
pub mod Exists
pub mod Stat
use ferrum_os.Prelude.{
  ℕ, zero, suc, ◌+◌, ◌/◌, ◌%◌, ◌^◌, Bool, true, false, ◌&&◌, ◌||◌, not, Option, none, some, is_some,
  List, [], ◌∷◌, ◌++◌, ltb, ◌==◌, if◌then◌else◌, length, replicate, get_elem?, le_bytes, Result, ok,
  err,
}
use ferrum_os.Fd.{
  FdTable, Objects, OpenFile, FdKind, serial, file, dev_null, dev_zero, directory, pipe, VfsNode,
  ramfs, procfs, alloc, file_of, device, directory_of,
}
use ferrum_os.Procs.{errno, new_descriptor}
use ferrum_os.Paths.{Str, slash, resolve_path}
use ferrum_os.Ramfs.{
  Ramfs, RamfsNode, FileType, regular, str_eq, open_node, list_dir, write_file, mkdir, rename,
  unlink,
}
use ferrum_os.Ramfs
use ferrum_os.Io.{
  System, Answer, returns, waits, panics, put_bytes, write_to_user, read_user_cstr, open_file_of,
  node_at,
}

-- the longest path that a call reads, with its zero byte
abbrev pub path_max : ℕ
path_max = 256

-- The start of every such call: EFAULT, or the handler on the resolved path.
abbrev pub on_path : System → Option Str → (Str → Answer) → Answer
on_path s none handler = returns (errno 14) s
on_path s (some raw_path) handler = handler (resolve_path s.cwd raw_path)

abbrev pub with_path : System → ℕ → (Str → Answer) → Answer
with_path s ptr handler = on_path s (read_user_cstr s.user ptr path_max) handler

abbrev pub root_path : Str
root_path = slash ∷ []

abbrev pub is_nil : List Str → Bool
is_nil [] = true
is_nil (w ∷ ws) = false

-- the root, or a path that other paths lie below
abbrev pub has_entries : Ramfs → Str → Bool
has_entries fs path = str_eq path root_path || not (is_nil (list_dir fs path))

abbrev pub exists : Ramfs → Str → Bool
exists fs path = has_entries fs path || is_some (open_node fs path)

abbrev pub flag : ℕ → ℕ → Bool
flag bit flags = flags / bit % 2 == 1

abbrev pub o_directory : ℕ
o_directory = 0o200000

abbrev pub o_creat : ℕ
o_creat = 0o100

abbrev pub o_trunc : ℕ
o_trunc = 0o1000

abbrev pub o_append : ℕ
o_append = 0o2000

abbrev pub access_mode : ℕ → ℕ
access_mode flags = flags % 4

abbrev pub is_writable : ℕ → Bool
is_writable flags = access_mode flags == 1 || access_mode flags == 2

abbrev pub new_fd : System → OpenFile → Answer
new_fd s f =
    let c = alloc s.table s.objects f in
    returns (new_descriptor c.0) (record s { table = c.1; objects = c.2 })

-- /dev/null, /dev/zero and /dev/tty
abbrev pub device_of : Str → Option FdKind
device_of path =
    if str_eq path (47 ∷ 100 ∷ 101 ∷ 118 ∷ 47 ∷ 110 ∷ 117 ∷ 108 ∷ 108 ∷ [])
    then some dev_null
    else if str_eq path (47 ∷ 100 ∷ 101 ∷ 118 ∷ 47 ∷ 122 ∷ 101 ∷ 114 ∷ 111 ∷ [])
    then some dev_zero
    else if str_eq path (47 ∷ 100 ∷ 101 ∷ 118 ∷ 47 ∷ 116 ∷ 116 ∷ 121 ∷ [])
    then some serial
    else none

abbrev pub proc_self : Str
proc_self = 47 ∷ 112 ∷ 114 ∷ 111 ∷ 99 ∷ 47 ∷ 115 ∷ 101 ∷ 108 ∷ 102 ∷ 47 ∷ []

-- The texts of /proc/self/maps and /proc/self/status, which Procfs formats from the process.
pub record ProcTexts : Type 0 where
  pub maps : List ℕ
  pub status : List ℕ

abbrev pub proc_text : ProcTexts → Str → Option (List ℕ)
proc_text texts path =
    if str_eq path (proc_self ++ 109 ∷ 97 ∷ 112 ∷ 115 ∷ [])
    then some texts.maps
    else if str_eq path (proc_self ++ 115 ∷ 116 ∷ 97 ∷ 116 ∷ 117 ∷ 115 ∷ [])
    then some texts.status
    else none

-- the file system in which open looks the path up for the second time
abbrev pub created : Ramfs → Str → ℕ → Option ℕ → Ramfs
created fs path flags none = if flag o_creat flags then write_file fs path [] else fs
created fs path flags (some n) =
    if flag o_trunc flags && is_writable flags then write_file fs path [] else fs

abbrev pub open_handle : System → ℕ → Option ℕ → Answer
open_handle s flags none = returns (errno 2) s
open_handle s flags (some n) =
    new_fd s
      (file_of (ramfs n) (not (access_mode flags == 1)) (is_writable flags) (flag o_append flags))

abbrev pub open_ram : System → Str → ℕ → Answer
open_ram s path flags =
    let fs = created s.fs path flags (open_node s.fs path) in
    open_handle (record s { fs = fs }) flags (open_node fs path)

abbrev pub open_proc : System → Str → ℕ → Option (List ℕ) → Answer
open_proc s path flags (some text) = new_fd s (file_of (procfs text) true false false)
open_proc s path flags none = open_ram s path flags

abbrev pub open_device : ProcTexts → System → Str → ℕ → Option FdKind → Answer
open_device texts s path flags (some kind) = new_fd s (device kind)
open_device texts s path flags none = open_proc s path flags (proc_text texts path)

abbrev pub open_path : ProcTexts → ℕ → System → Str → Answer
open_path texts flags s path =
    if flag o_directory flags || str_eq path root_path
    then new_fd s (directory_of (list_dir s.fs path))
    else open_device texts s path flags (device_of path)

unfoldable pub syscall_open : ProcTexts → ℕ → ℕ → System → Answer
unfolding read_user_cstr resolve_path open_node list_dir write_file alloc
syscall_open texts ptr flags s = with_path s ptr (open_path texts flags s)

abbrev pub answer_found : System → Bool → Answer
answer_found s b = returns (if b then 0 else errno 2) s

unfoldable pub syscall_access : ℕ → System → Answer
unfolding read_user_cstr resolve_path open_node
syscall_access ptr s = with_path s ptr (λ path. answer_found s (is_some (open_node s.fs path)))

unfoldable pub syscall_faccessat : ℕ → System → Answer
unfolding read_user_cstr resolve_path open_node list_dir
syscall_faccessat ptr s = with_path s ptr (λ path. answer_found s (exists s.fs path))

abbrev pub chdir_path : System → Str → Answer
chdir_path s path =
    if exists s.fs path then returns 0 (record s { cwd = path }) else returns (errno 2) s

unfoldable pub syscall_chdir : ℕ → System → Answer
unfolding read_user_cstr resolve_path open_node list_dir
syscall_chdir ptr s = with_path s ptr (chdir_path s)

-- `str::as_bytes`: UTF-8, of the characters that a path can hold, which were bytes
unfoldable pub as_bytes : Str → List ℕ
as_bytes [] = []
as_bytes (c ∷ cs) =
    if ltb c 128 then c ∷ as_bytes cs else (192 + c / 64) ∷ (128 + c % 64) ∷ as_bytes cs

abbrev pub put_cwd : ℕ → Bool × System → Answer
put_cwd buf (false, s) = returns (errno 14) s
put_cwd buf (true, s) = returns buf s

unfoldable pub syscall_getcwd : ℕ → ℕ → System → Answer
unfolding write_to_user as_bytes
syscall_getcwd buf size s =
    let bytes = as_bytes s.cwd in
    if ltb size (length bytes + 1)
    then returns (errno 34) s
    else put_cwd buf (write_to_user s buf (bytes ++ 0 ∷ []))

abbrev pub mkdir_path : System → Str → Answer
mkdir_path s path =
    if exists s.fs path then returns (errno 17) s else returns 0 (record s { fs = mkdir s.fs path })

unfoldable pub syscall_mkdir : ℕ → System → Answer
unfolding read_user_cstr resolve_path open_node list_dir mkdir
syscall_mkdir ptr s = with_path s ptr (mkdir_path s)

-- the end of rename and unlink
abbrev pub changed : System → Result Ramfs → Answer
changed s (ok fs) = returns 0 (record s { fs = fs })
changed s (err e) = returns (errno 2) s

abbrev pub rename_from : System → Option Str → Option Str → Answer
rename_from s none new = returns (errno 14) s
rename_from s (some old) none = returns (errno 14) s
rename_from s (some old) (some new) =
    changed s (rename s.fs (resolve_path s.cwd old) (resolve_path s.cwd new))

unfoldable pub syscall_rename : ℕ → ℕ → System → Answer
unfolding read_user_cstr resolve_path rename
syscall_rename old new s =
    rename_from s (read_user_cstr s.user old path_max) (read_user_cstr s.user new path_max)

unfoldable pub syscall_unlink : ℕ → System → Answer
unfolding read_user_cstr resolve_path unlink
syscall_unlink ptr s = with_path s ptr (λ path. changed s (unlink s.fs path))
