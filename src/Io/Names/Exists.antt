-- ===== src/Io/Names/Exists.antt =====
-- What mkdir, open, rename and unlink of kernel/src/syscall.rs leave for a later call on the path.
use ferrum_os.Prelude.{
  ℕ, ◌≡◌, refl, ◌∙◌, ap, true, false, ◌&&◌, ◌||◌, Option, none, some, is_some, List, [], ◌∷◌, ◌++◌,
  arith, inl, inr, Bool-cases, length, Result, ok, err,
}
use ferrum_os.Procs.{errno}
use ferrum_os.Paths.{Str, resolve_path}
use ferrum_os.Ramfs.{
  Ramfs, RamfsNode, Entry, str_eq, find_entry, open_node, node_of, mkdir, mkdir_at, write_file,
  write_at, regular, unlink,
}
use ferrum_os.Ramfs.Tree.{IsUnique, Unlinked, unlink-Unlinked, str_eq_refl}
use ferrum_os.Io.{System, Answer, returns, read_user_cstr}
use ferrum_os.Io.Files.RoundTrip.{and_call}
use ferrum_os.Io.Names.{
  path_max, root_path, has_entries, exists, flag, o_directory, o_creat, o_trunc, is_writable,
  device_of, ProcTexts, proc_text, created, open_handle, open_ram, syscall_open, answer_found,
  syscall_access, chdir_path, syscall_chdir, mkdir_path, syscall_mkdir, changed, syscall_unlink,
}

find_entry-end : (es : List Entry) (e : Entry) → is_some (find_entry (es ++ e ∷ []) e.path) ≡ true
unfolding find_entry
find_entry-end [] e = rw (str_eq_refl e.path) refl
find_entry-end (f ∷ es) e = elim (Bool-cases (str_eq f.path e.path)) [
  | inl c ↦ rw c refl
  | inr c ↦ rw c (find_entry-end es e)
]

pub is_some-node_of : (r : Option Entry) → is_some (node_of r) ≡ is_some r
is_some-node_of none = refl
is_some-node_of (some e) = refl

pub open_node-end :
    (es : List Entry) (e : Entry) (nodes : List RamfsNode)
    → is_some (open_node (record { entries = es ++ e ∷ []; nodes = nodes }) e.path) ≡ true
unfolding open_node
open_node-end es e nodes = is_some-node_of (find_entry (es ++ e ∷ []) e.path) ∙ find_entry-end es e

mkdir_at-answer_found :
    (fs : Ramfs) (path : Str) (r : Option ℕ)
    → open_node fs path ≡ r
    → is_some (open_node (mkdir_at fs path r) path) ≡ true
mkdir_at-answer_found fs path (some n) e = rw e refl
mkdir_at-answer_found fs path none e =
    open_node-end fs.entries (record { path = path; node = length fs.nodes }) _

pub mkdir-answer_found : (fs : Ramfs) (path : Str) → is_some (open_node (mkdir fs path) path) ≡ true
unfolding mkdir
mkdir-answer_found fs path = mkdir_at-answer_found fs path (open_node fs path) refl

exists-open_node :
    (fs : Ramfs) (path : Str) → is_some (open_node fs path) ≡ true → exists fs path ≡ true
exists-open_node fs path h = elim (Bool-cases (has_entries fs path)) [
  | inl c ↦ rw c refl
  | inr c ↦ rw c h
]

-- the state after a call, if it returned
abbrev pub then_answers : ℕ → Answer → Answer
then_answers n a = and_call a (returns n)

syscall_mkdir-eq :
    (ptr : ℕ) (s : System) (raw : Str)
    → read_user_cstr s.user ptr path_max ≡ some raw
    → syscall_mkdir ptr s ≡ mkdir_path s (resolve_path s.cwd raw)
unfolding syscall_mkdir
syscall_mkdir-eq ptr s raw h = rw h refl

syscall_chdir-eq :
    (ptr : ℕ) (s : System) (raw : Str)
    → read_user_cstr s.user ptr path_max ≡ some raw
    → syscall_chdir ptr s ≡ chdir_path s (resolve_path s.cwd raw)
unfolding syscall_chdir
syscall_chdir-eq ptr s raw h = rw h refl

syscall_access-eq :
    (ptr : ℕ) (s : System) (raw : Str)
    → read_user_cstr s.user ptr path_max ≡ some raw
    → syscall_access ptr s ≡ answer_found s (is_some (open_node s.fs (resolve_path s.cwd raw)))
unfolding syscall_access
syscall_access-eq ptr s raw h = rw h refl

mkdir_path-exists :
    (s : System) (path : Str)
    → (fs : Ramfs) × (n : ℕ) × ((mkdir_path s path ≡ returns n (record s { fs = fs }))
        × (exists fs path ≡ true))
mkdir_path-exists s path = elim (Bool-cases (exists s.fs path)) [
  | inl c ↦ (s.fs, errno 17, (rw c refl, c))
  | inr c ↦ (
    mkdir s.fs path,
    0,
    (rw c refl, exists-open_node (mkdir s.fs path) path (mkdir-answer_found s.fs path)),
  )
]

-- After mkdir of a readable path, whatever it returns, mkdir of the same path returns EEXIST and
-- changes nothing, and chdir to it returns 0 and changes the working directory to it.
pub mkdir-exists :
    (ptr : ℕ) (s : System) (raw : Str)
    → read_user_cstr s.user ptr path_max ≡ some raw
    → (and_call (syscall_mkdir ptr s) (syscall_mkdir ptr)
        ≡ then_answers (errno 17) (syscall_mkdir ptr s))
      × (and_call (syscall_mkdir ptr s) (syscall_chdir ptr)
          ≡ and_call
              (syscall_mkdir ptr s)
              (λ t. returns 0 (record t { cwd = resolve_path s.cwd raw })))
mkdir-exists ptr s raw h =
    let path = resolve_path s.cwd raw in
    let (fs, n, (ran, there)) = mkdir_path-exists s path in
    let t = record s { fs = fs } in
    let first = syscall_mkdir-eq ptr s raw h ∙ ran in
    let again : mkdir_path t path ≡ returns (errno 17) t = rw there refl in
    let moved : chdir_path t path ≡ returns 0 (record t { cwd = path }) = rw there refl in
    (
      rw first (syscall_mkdir-eq ptr t raw h ∙ again),
      rw first (syscall_chdir-eq ptr t raw h ∙ moved),
    )

write_at-answer_found :
    (fs : Ramfs) (path : Str) (r : Option ℕ)
    → open_node fs path ≡ r
    → is_some (open_node (write_at fs path [] r) path) ≡ true
unfolding open_node
write_at-answer_found fs path (some n) e = ap is_some e
write_at-answer_found fs path none e =
    open_node-end fs.entries (record { path = path; node = length fs.nodes })
      (fs.nodes ++ record { file_type = regular; bytes = [] } ∷ [])

write_file-answer_found :
    (fs : Ramfs) (path : Str) → is_some (open_node (write_file fs path []) path) ≡ true
unfolding write_file
write_file-answer_found fs path = write_at-answer_found fs path (open_node fs path) refl

created-answer_found :
    (fs : Ramfs) (path : Str) (flags : ℕ) (r : Option ℕ)
    → open_node fs path ≡ r
    → flag o_creat flags ≡ true
    → is_some (open_node (created fs path flags r) path) ≡ true
created-answer_found fs path flags none e c = rw c (write_file-answer_found fs path)
created-answer_found fs path flags (some n) e c =
    elim (Bool-cases (flag o_trunc flags && is_writable flags)) [
      | inl d ↦ rw d (write_file-answer_found fs path)
      | inr d ↦ rw d (ap is_some e)
    ]

open_handle-frame :
    (s : System) (flags : ℕ) (r : Option ℕ)
    → (t : System) × (n : ℕ) × ((open_handle s flags r ≡ returns n t)
        × (t.fs ≡ s.fs)
        × (t.user ≡ s.user)
        × (t.cwd ≡ s.cwd))
open_handle-frame s flags none = (s, errno 2, (refl, refl, refl, refl))
open_handle-frame s flags (some n) = (_, _, (refl, refl, refl, refl))

-- A path that open looks up in the RAM file system.
abbrev pub IsRamPath : ProcTexts → ℕ → Str → Type 0
IsRamPath texts flags path =
    (flag o_directory flags || str_eq path root_path ≡ false)
    × (device_of path ≡ none)
    × (proc_text texts path ≡ none)

syscall_open-eq :
    (texts : ProcTexts) (ptr flags : ℕ) (s : System) (raw : Str)
    → read_user_cstr s.user ptr path_max ≡ some raw
    → IsRamPath texts flags (resolve_path s.cwd raw)
    → syscall_open texts ptr flags s ≡ open_ram s (resolve_path s.cwd raw) flags
unfolding syscall_open
syscall_open-eq texts ptr flags s raw h (plain, no_device, no_text) =
    rw h (rw plain (rw no_device (rw no_text refl)))

-- After open of a readable path with O_CREAT, where the path is not one of a device, of /proc, the
-- root, or opened as a directory, and whatever open returns, access of the path returns 0.
pub access-open :
    (texts : ProcTexts) (ptr flags : ℕ) (s : System) (raw : Str)
    → read_user_cstr s.user ptr path_max ≡ some raw
    → IsRamPath texts flags (resolve_path s.cwd raw)
    → flag o_creat flags ≡ true
    → and_call (syscall_open texts ptr flags s) (syscall_access ptr)
      ≡ then_answers 0 (syscall_open texts ptr flags s)
access-open texts ptr flags s raw h ram creat =
    let path = resolve_path s.cwd raw in
    let fs = created s.fs path flags (open_node s.fs path) in
    let there = created-answer_found s.fs path flags (open_node s.fs path) refl creat in
    let (t, n, (ran, same_fs, same_user, same_cwd)) =
      open_handle-frame (record s { fs = fs }) flags (open_node fs path) in
    let first = syscall_open-eq texts ptr flags s raw h ram ∙ ran in
    let opened : open_node t.fs (resolve_path t.cwd raw) ≡ open_node fs path =
      rw (same_fs, same_cwd) refl in
    let reads : read_user_cstr t.user ptr path_max ≡ some raw = rw same_user h in
    let second =
      syscall_access-eq ptr t raw reads
      ∙ ap (λ r. answer_found t (is_some r)) opened
      ∙ ap (answer_found t) there in
    rw first second

pub access-unlink :
    (ptr : ℕ) (s : System) (raw : Str)
    → read_user_cstr s.user ptr path_max ≡ some raw
    → IsUnique s.fs.entries
    → and_call (syscall_unlink ptr s) (syscall_access ptr)
      ≡ then_answers (errno 2) (syscall_unlink ptr s)
unfolding syscall_unlink
access-unlink ptr s raw h u =
    let path = resolve_path s.cwd raw in rw h (go (unlink s.fs path) (unlink-Unlinked s.fs path u))
  where
    go :
        (r : Result Ramfs)
        → Unlinked s.fs (resolve_path s.cwd raw) r
        → and_call (changed s r) (syscall_access ptr) ≡ then_answers (errno 2) (changed s r)
    go (ok fs) (was, unique, now, kept) =
        let path = resolve_path s.cwd raw in
        let gone : is_some (open_node fs path) ≡ false =
          ground (arith, now path, str_eq_refl path) in
        syscall_access-eq ptr (record s { fs = fs }) raw h ∙ ap (answer_found _) gone
    go (err e) (missing, none_there) =
        syscall_access-eq ptr s raw h ∙ ap (λ r. answer_found s (is_some r)) none_there
