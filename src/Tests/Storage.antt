-- ===== src/Tests/Storage.antt =====
-- A file system with the directory `/bin`, as kernel/src/fs/ramfs.rs keeps it, and a pipe of
-- kernel/src/pipe.rs.
use ferrum_os.Prelude.{◌≡◌, refl, [], ◌∷◌}
use ferrum_os.Paths.{Str}
use ferrum_os.Ramfs.{RamfsNode, Ramfs, regular, directory, write_inner, create, unlink, find_entry}
use ferrum_os.Ramfs.Bytes.{Wrote, write_inner-bytes}
use ferrum_os.Ramfs.Tree.{IsUnique, Created, Unlinked, create-Created, unlink-Unlinked}
use ferrum_os.Prelude.{◌++◌, List, arith}
use ferrum_os.Fd.{new_pipe}
use ferrum_os.Pipes.Stream.{Call, reads, writes, run, written, run-written}

-- `/bin` and `/a`
abbrev bin : Str
bin = 47 ∷ 98 ∷ 105 ∷ 110 ∷ []

abbrev a_path : Str
a_path = 47 ∷ 97 ∷ []

abbrev text : RamfsNode
text = record { file_type = regular; bytes = 104 ∷ 105 ∷ [] }

abbrev root : Ramfs
root = record {
  entries = record { path = bin; node = 0 } ∷ [];
  nodes = record { file_type = directory; bytes = [] } ∷ [];
}

root-IsUnique : IsUnique root.entries
unfolding find_entry
root-IsUnique = (refl, tt)

write_inner-bytes_example : Wrote text 4 (33 ∷ []) (write_inner text 4 (33 ∷ []))
write_inner-bytes_example = write_inner-bytes text 4 (33 ∷ [])

create-Created_example : Created root a_path regular (create root a_path regular)
create-Created_example = create-Created root a_path root-IsUnique regular

unlink-Unlinked_example : Unlinked root bin (unlink root bin)
unlink-Unlinked_example = unlink-Unlinked root bin root-IsUnique

-- a write, a read of one byte, and a read of the rest
abbrev calls : List Call
calls = writes (1 ∷ 2 ∷ 3 ∷ []) ∷ reads 1 ∷ reads 9 ∷ []

run-written_example :
    (run new_pipe calls).0 ++ (run new_pipe calls).1.buf ≡ new_pipe.buf ++ written calls
run-written_example = run-written new_pipe calls (omega arith)
