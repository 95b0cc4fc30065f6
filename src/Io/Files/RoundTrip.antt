-- ===== src/Io/Files/RoundTrip.antt =====
-- What is written to a file through a descriptor is read back through it: write, lseek and read of
-- kernel/src/syscall.rs together.
use ferrum_os.Prelude.{
  ℕ, ◌+◌, ◌^◌, ◌<◌, ◌≡◌, refl, sym, ◌∙◌, ap, true, false, Option, none, some, List, ◌==◌, ltb,
  arith, length, get_elem?, set, get_elem?-set_self, lt_of_get_elem?, leb,
}
use ferrum_os.Fd.{OpenFile, Objects, file, get, ramfs}
use ferrum_os.Ramfs.{RamfsNode, read_inner, written_node, write_inner}
use ferrum_os.Ramfs.Bytes.{read_inner-written_node}
use ferrum_os.Io.{
  System, AnswersWith, AnswersWith-returns, Answer, returns, waits, panics, load_bytes, put_bytes,
  open_file_of, set_file, file_at, with_entry,
}
use ferrum_os.Io.Buffers.{load_bytes-store_bytes, length-load_bytes}
use ferrum_os.Io.Files.{syscall_read, syscall_write, syscall_lseek}

-- the next call, if the one before returned
abbrev pub and_call : Answer → (System → Answer) → Answer
and_call (returns n s) next = next s
and_call waits next = waits
and_call panics next = panics

with_entry-some :
    (e : ℕ) (r : Option OpenFile) (entry : ℕ) (f : OpenFile)
    → with_entry e r ≡ some (entry, f)
    → (e ≡ entry) × (r ≡ some f)
with_entry-some e none entry f h = absurd (ground arith)
with_entry-some e (some g) entry f h = (ground arith, ground arith)

file_at-get :
    (o : Objects) (slot : Option ℕ) (entry : ℕ) (f : OpenFile)
    → file_at o slot ≡ some (entry, f)
    → (slot ≡ some entry) × (get_elem? o.files entry ≡ some f)
file_at-get o none entry f h = absurd (ground arith)
file_at-get o (some e) entry f h =
    let (same, found) = with_entry-some e (get_elem? o.files e) entry f h in
    (ap some same, sym (ap (get_elem? o.files) same) ∙ found)

pub open_file_of-set_file :
    (s : System) (fd entry : ℕ) (f g : OpenFile)
    → open_file_of s fd ≡ some (entry, f)
    → open_file_of (set_file s entry g) fd ≡ some (entry, g)
unfolding open_file_of
open_file_of-set_file s fd entry f g h =
    let (slot, found) = file_at-get s.objects (get s.table fd) entry f h in
    let here =
      get_elem?-set_self s.objects.files entry g (lt_of_get_elem? s.objects.files entry f found) in
    let o = s.objects in
    ap (file_at (record o { files = set o.files entry g })) slot ∙ ap (with_entry entry) here

-- An open file on a node of the RAM file system, open both ways and not for appending, whose offset
-- is one that lseek accepts.
pub record IsOpenFile (s : System) (fd entry n : ℕ) (f : OpenFile) (node : RamfsNode) : Type 0 where
  pub found : open_file_of s fd ≡ some (entry, f)
  pub is_file : f.kind ≡ file
  pub has_node : f.node ≡ some (ramfs n)
  pub stored : get_elem? s.fs.nodes n ≡ some node
  pub not_append : f.append ≡ false
  pub can_read : f.readable ≡ true
  pub can_write : f.writable ≡ true
  pub seekable : f.offset < 2 ^ 63

-- the system after a write of `bytes`
abbrev after_write : System → ℕ → ℕ → OpenFile → RamfsNode → List ℕ → System
after_write s entry n f node bytes =
    let fs = s.fs in
    let fs' = record fs { nodes = set fs.nodes n (written_node node f.offset bytes) } in
    set_file (record s { fs = fs' }) entry (record f { offset = f.offset + length bytes })

syscall_write-file :
    (s : System) (fd buf len entry n : ℕ) (f : OpenFile) (node : RamfsNode)
    → IsOpenFile s fd entry n f node
    → 0 < len
    → f.offset + len < 2 ^ 63
    → syscall_write fd buf len s
      ≡ returns len (after_write s entry n f node (load_bytes s.user buf len))
unfolding syscall_write write_inner
syscall_write-file s fd buf len entry n f node o pos fits =
    let bytes = load_bytes s.user buf len in
    let in_reach : ltb (f.offset + length bytes) (2 ^ 63) ≡ true =
      ground (arith, length-load_bytes s.user buf len) in
    let nonzero : (len == 0) ≡ false = ground arith in
    rw nonzero (
      rw o.found (
        rw o.can_write (
          rw o.is_file (
            rw o.has_node (
              rw o.not_append
                (rw o.stored (rw in_reach (rw (length-load_bytes s.user buf len) refl))))))))

syscall_lseek-set :
    (s : System) (fd target entry : ℕ) (f : OpenFile)
    → open_file_of s fd ≡ some (entry, f)
    → target < 2 ^ 63
    → syscall_lseek fd target 0 s ≡ returns target (set_file s entry (record f { offset = target }))
unfolding syscall_lseek
syscall_lseek-set s fd target entry f found h =
    let small : leb (2 ^ 63) target ≡ false = ground arith in rw found (rw small refl)

abbrev after_read : System → ℕ → ℕ → OpenFile → List ℕ → System
after_read s entry buf f bytes =
    set_file (put_bytes s buf bytes) entry (record f { offset = f.offset + length bytes })

syscall_read-file :
    (s : System) (fd buf len entry n : ℕ) (input : List ℕ) (f : OpenFile) (node : RamfsNode)
    → IsOpenFile s fd entry n f node
    → 0 < len
    → syscall_read fd buf len input s
      ≡ returns
          (length (read_inner node f.offset len))
          (after_read s entry buf f (read_inner node f.offset len))
unfolding syscall_read
syscall_read-file s fd buf len entry n input f node o pos =
    let nonzero : (len == 0) ≡ false = ground arith in
    rw nonzero (rw o.found (rw o.can_read (rw o.is_file (rw o.has_node (rw o.stored refl)))))

-- What the file then holds, with the descriptor back at the offset of the write.
rewound-IsOpenFile :
    (s : System) (fd entry n : ℕ) (f : OpenFile) (node : RamfsNode) (bytes : List ℕ)
    → IsOpenFile s fd entry n f node
    → IsOpenFile
        (set_file (after_write s entry n f node bytes) entry (record f { offset = f.offset }))
        fd
        entry
        n
        f
        (written_node node f.offset bytes)
unfolding open_file_of
rewound-IsOpenFile s fd entry n f node bytes o =
    let fs = s.fs in
    let fs' = record fs { nodes = set fs.nodes n (written_node node f.offset bytes) } in
    let s' = record s { fs = fs' } in
    let g = record f { offset = f.offset + length bytes } in
    let written = open_file_of-set_file s' fd entry f g o.found in
    let stored =
      get_elem?-set_self s.fs.nodes n (written_node node f.offset bytes)
        (lt_of_get_elem? s.fs.nodes n node o.stored) in
    record {
      found = open_file_of-set_file (set_file s' entry g) fd entry g f written;
      is_file = o.is_file;
      has_node = o.has_node;
      stored = stored;
      not_append = o.not_append;
      can_read = o.can_read;
      can_write = o.can_write;
      seekable = o.seekable;
    }

-- On a descriptor of a file of the RAM file system, open for reading and writing and not for
-- appending, at an offset with offset + len below 2 ^ 63: write of len > 0 bytes, lseek back to
-- that offset and read of len bytes into any buffer return len, and the buffer then holds the
-- bytes that the written memory held before the calls.
pub write_seek_read-bytes :
    (s : System) (fd buf buf' len entry n : ℕ) (input : List ℕ) (f : OpenFile) (node : RamfsNode)
    → IsOpenFile s fd entry n f node
    → 0 < len
    → f.offset + len < 2 ^ 63
    → AnswersWith len
        (λ t. load_bytes t.user buf' len ≡ load_bytes s.user buf len)
        (and_call
          (syscall_write fd buf len s)
          (λ s1. and_call (syscall_lseek fd f.offset 0 s1) (syscall_read fd buf' len input)))
unfolding open_file_of
write_seek_read-bytes s fd buf buf' len entry n input f node o pos fits =
    let bytes = load_bytes s.user buf len in
    let stored = written_node node f.offset bytes in
    let s1 = after_write s entry n f node bytes in
    let g = record f { offset = f.offset + length bytes } in
    let s2 = set_file s1 entry (record g { offset = f.offset }) in
    let fs = s.fs in
    let s0 = record s { fs = record fs { nodes = set fs.nodes n stored } } in
    let sought =
      syscall_lseek-set s1 fd f.offset entry g (open_file_of-set_file s0 fd entry f g o.found)
        o.seekable in
    let back =
      syscall_read-file s2 fd buf' len entry n input f stored
        (rewound-IsOpenFile s fd entry n f node bytes o) pos in
    let same : read_inner stored f.offset len ≡ bytes =
      ap (read_inner stored f.offset) (sym (length-load_bytes s.user buf len))
      ∙ read_inner-written_node node f.offset bytes in
    let last = after_read s2 entry buf' f bytes in
    AnswersWith-returns len _ _ last
      (ap
          (λ a.
            and_call a
              (λ s'. and_call (syscall_lseek fd f.offset 0 s') (syscall_read fd buf' len input)))
          (syscall_write-file s fd buf len entry n f node o pos fits)
        ∙ ap (λ a. and_call a (syscall_read fd buf' len input)) sought
        ∙ back
        ∙ ap (λ r. returns (length r) (after_read s2 entry buf' f r)) same
        ∙ ap (λ k. returns k last) (length-load_bytes s.user buf len))
      (ap (load_bytes last.user buf') (sym (length-load_bytes s.user buf len))
        ∙ load_bytes-store_bytes s.user buf' bytes)
