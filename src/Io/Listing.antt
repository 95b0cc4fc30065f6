-- ===== src/Io/Listing.antt =====
-- getdents64 of kernel/src/syscall.rs: the names that an open directory was given, as records in user
-- memory, from the file's offset on, as many as fit.
pub mod Bounds
use ferrum_os.Prelude.{
  ℕ, zero, suc, ◌+◌, ◌*◌, ◌/◌, Bool, true, false, Option, none, some, List, [], ◌∷◌, ◌++◌, ltb,
  if◌then◌else◌, length, drop, le_bytes,
}
use ferrum_os.Fd.{OpenFile}
use ferrum_os.Procs.{errno}
use ferrum_os.Paths.{Str}
use ferrum_os.Io.{System, Answer, returns, waits, panics, store_bytes, open_file_of, set_file}
use ferrum_os.Io.Files.{is_directory}
use ferrum_os.Io.Names.{as_bytes}

-- the length of a record: the fixed part, the name and its zero byte, in multiples of eight
abbrev pub reclen : List ℕ → ℕ
reclen name_bytes = (19 + length name_bytes + 1 + 7) / 8 * 8

-- the bytes that are written of record `i`; those behind the zero byte stay as they are
unfoldable pub dirent : ℕ → List ℕ → List ℕ
unfolding le_bytes
dirent i name_bytes =
    le_bytes 8 (i + 1)
    ++ (le_bytes 8 (i + 1)
        ++ (le_bytes 2 (reclen name_bytes) ++ (8 ∷ [] ++ (name_bytes ++ 0 ∷ []))))

-- Where the loop ends: user memory, `out_off`, and the index of the next name.
pub record Listed : Type 0 where
  pub user : ℕ → ℕ
  pub out_off : ℕ
  pub next_idx : ℕ

unfoldable pub list_entries : ℕ → ℕ → ℕ → List Str → (ℕ → ℕ) → ℕ → Listed
unfolding store_bytes dirent as_bytes
list_entries buf count i [] user out_off = record { user = user; out_off = out_off; next_idx = i }
list_entries buf count i (name ∷ names) user out_off =
    let bytes = as_bytes name in
    let user' = store_bytes user (buf + out_off) (dirent i bytes) in
    let rest = list_entries buf count (i + 1) names user' (out_off + reclen bytes) in
    if ltb count (out_off + reclen bytes)
    then record { user = user; out_off = out_off; next_idx = i }
    else rest

abbrev pub listed : System → ℕ → OpenFile → Listed → Answer
listed s entry f l =
    returns l.out_off
      (set_file (record s { user = l.user }) entry (record f { offset = l.next_idx }))

abbrev pub list_names : ℕ → ℕ → System → ℕ → OpenFile → Option (List Str) → Answer
list_names buf count s entry f none = returns 0 s
list_names buf count s entry f (some names) =
    listed s entry f (list_entries buf count f.offset (drop f.offset names) s.user 0)

abbrev pub list_open : ℕ → ℕ → System → Option (ℕ × OpenFile) → Answer
list_open buf count s none = returns (errno 9) s
list_open buf count s (some (entry, f)) =
    if is_directory f.kind
    then list_names buf count s entry f f.dir_entries
    else returns (errno 20) s

unfoldable pub syscall_getdents64 : ℕ → ℕ → ℕ → System → Answer
unfolding open_file_of list_entries
syscall_getdents64 fd buf count s = list_open buf count s (open_file_of s fd)
