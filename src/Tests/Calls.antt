-- ===== src/Tests/Calls.antt =====
-- A process with the file `/a` open, and the file system calls of kernel/src/syscall.rs on it.
use ferrum_os.Prelude.{
  ◌≡◌, refl, true, false, none, some, [], ◌∷◌, arith, ◌^◌, ◌-◌, replicate, ◌==◌, if◌then◌else◌,
}
use ferrum_os.Fd.{FdTable, OpenFile, Objects, ramfs, file_of}
use ferrum_os.Paths.{Str, join, resolve_path}
use ferrum_os.Paths.Normal.{IsNormal, all}
use ferrum_os.Ramfs.{Ramfs, RamfsNode, regular}
use ferrum_os.Io.{
  System, AnswersWith, Answer, load_bytes, store_bytes, read_user_cstr, open_file_of,
}
use ferrum_os.Io.Console.{Line, read_line, IsLine, read_line-IsLine}
use ferrum_os.Io.Files.{syscall_read, syscall_write, syscall_lseek}
use ferrum_os.Io.Files.RoundTrip.{and_call, IsOpenFile, write_seek_read-bytes}
use ferrum_os.Io.Names.{ProcTexts, path_max, exists, syscall_chdir, syscall_getcwd, syscall_mkdir}
use ferrum_os.Io.Names.Cwd.{chdir-getcwd}
use ferrum_os.Io.Names.Exists.{then_answers, mkdir-exists}
use ferrum_os.Io.Listing.{list_entries}
use ferrum_os.Io.Listing.Bounds.{IsListed, list_entries-IsListed}

abbrev hello : RamfsNode
hello = record { file_type = regular; bytes = 104 ∷ 105 ∷ [] }

abbrev disk : Ramfs
disk = record { entries = record { path = 47 ∷ 97 ∷ []; node = 0 } ∷ []; nodes = hello ∷ [] }

abbrev open_a : OpenFile
open_a = file_of (ramfs 0) true true false

abbrev slot : FdTable
slot = some 0 ∷ replicate 15 none

abbrev store : Objects
store = record { files = open_a ∷ []; pipes = [] }

-- At address 100 the path `/b`; the working directory is the root.
abbrev process : System
process = record {
  table = slot;
  objects = store;
  fs = disk;
  cwd = 47 ∷ [];
  user = λ a. if a == 100 then 47 else if a == 101 then 98 else 0;
  mapped = λ a. true;
  console = [];
}

abbrev path_b : Str
path_b = 47 ∷ 98 ∷ []

path_b_reads : read_user_cstr process.user 100 path_max ≡ some path_b
unfolding read_user_cstr
path_b_reads = refl

root_IsNormal : IsNormal process.cwd
unfolding join all
root_IsNormal = record { components = []; spelled = refl; plain = refl }

a_IsOpenFile : IsOpenFile process 0 0 0 open_a hello
unfolding open_file_of
a_IsOpenFile = record {
  found = refl;
  is_file = refl;
  has_node = refl;
  stored = refl;
  not_append = refl;
  can_read = refl;
  can_write = refl;
  seekable = omega arith;
}

write_seek_read-bytes_example :
    AnswersWith 2
      (λ t. load_bytes t.user 200 2 ≡ load_bytes process.user 100 2)
      (and_call
        (syscall_write 0 100 2 process)
        (λ s1. and_call (syscall_lseek 0 0 0 s1) (syscall_read 0 200 2 [])))
write_seek_read-bytes_example =
    write_seek_read-bytes process 0 100 200 2 0 0 [] open_a hello a_IsOpenFile (omega arith)
      (omega arith)

root_exists : exists process.fs process.cwd ≡ true
root_exists = refl

chdir-getcwd_example :
    AnswersWith 300 (λ t. syscall_chdir 300 t ≡ Answer.returns 0 t) (syscall_getcwd 300 64 process)
chdir-getcwd_example =
    chdir-getcwd process 300 64 root_IsNormal refl (omega arith) (omega arith) (omega arith)
      (λ a lo hi. refl) root_exists

mkdir-exists_example :
    (and_call (syscall_mkdir 100 process) (syscall_mkdir 100)
      ≡ then_answers (2 ^ 64 - 17) (syscall_mkdir 100 process))
    × (and_call (syscall_mkdir 100 process) (syscall_chdir 100)
        ≡ and_call
            (syscall_mkdir 100 process)
            (λ t. Answer.returns 0 (record t { cwd = resolve_path process.cwd path_b })))
mkdir-exists_example = mkdir-exists 100 process path_b path_b_reads

abbrev texts : ProcTexts
texts = record { maps = []; status = [] }

list_entries-IsListed_example :
    IsListed 200 30 0
      (path_b ∷ path_b ∷ [])
      process.user
      (list_entries 200 30 0 (path_b ∷ path_b ∷ []) process.user 0)
list_entries-IsListed_example =
    list_entries-IsListed 200 30 0 (path_b ∷ path_b ∷ []) process.user 0 (omega arith)

abbrev no_line : Line
no_line = record { user = process.user; n = 0; shown = [] }

-- `hi`, a backspace and a line feed
abbrev typed_line : Line
typed_line = record {
  user =
      store_bytes (store_bytes (store_bytes process.user 200 (104 ∷ [])) 201 (105 ∷ [])) 201
        (10 ∷ []);
  n = 2;
  shown = 104 ∷ 105 ∷ 8 ∷ 32 ∷ 8 ∷ 13 ∷ 10 ∷ [];
}

read_line-IsLine_example : IsLine 200 8 no_line typed_line
unfolding read_line
read_line-IsLine_example =
    read_line-IsLine 200 8 (104 ∷ 105 ∷ 8 ∷ 10 ∷ []) no_line typed_line (omega arith) refl
