-- ===== src/Io/Files/Vector.antt =====
-- writev of kernel/src/syscall.rs. A part is never as long as an error number is large, so the result
-- of a part tells whether it was written.
use ferrum_os.Prelude.{
  ℕ, zero, suc, ◌+◌, true, false, Option, none, some, ◌==◌, if◌then◌else◌, get_elem?, le_word,
}
use ferrum_os.Fd.{OpenFile}
use ferrum_os.Procs.{errno}
use ferrum_os.Io.{System, Answer, returns, waits, panics, load_bytes, open_file_of}
use ferrum_os.Io.Files.{write_kind}

abbrev pub load_u64 : System → ℕ → ℕ
load_u64 s addr = le_word (load_bytes s.user addr 8)

-- The descriptor's file as it is now; the offset of a file open for appending stays.
abbrev pub write_part : System → ℕ → ℕ → ℕ → Option OpenFile → Answer
write_part s entry base len none = panics
write_part s entry base len (some f) =
    write_kind (load_bytes s.user base len) s entry f (if f.append then false else true) f.kind

abbrev pub part_written : ℕ → ℕ → Answer → (ℕ → System → Answer) → Answer
part_written len total (returns n s) rest = if n == len then rest (total + len) s else returns n s
part_written len total waits rest = waits
part_written len total panics rest = panics

-- `n` parts are left, the first at `iov`.
unfoldable pub write_parts : ℕ → ℕ → ℕ → ℕ → System → Answer
unfolding load_bytes
write_parts zero iov entry total s = returns total s
write_parts (suc n) iov entry total s =
    let base = load_u64 s iov in
    let len = load_u64 s (iov + 8) in
    let skipped = write_parts n (iov + 16) entry total s in
    let written =
      part_written len total (write_part s entry base len (get_elem? s.objects.files entry))
        (write_parts n (iov + 16) entry) in
    if len == 0 then skipped else written

abbrev pub writev_open : ℕ → ℕ → System → Option (ℕ × OpenFile) → Answer
writev_open iov iovcnt s none = returns (errno 9) s
writev_open iov iovcnt s (some (entry, f)) =
    if f.writable then write_parts iovcnt iov entry 0 s else returns (errno 9) s

unfoldable pub syscall_writev : ℕ → ℕ → ℕ → System → Answer
unfolding open_file_of write_parts
syscall_writev fd iov iovcnt s = writev_open iov iovcnt s (open_file_of s fd)
