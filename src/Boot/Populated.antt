-- ===== src/Boot/Populated.antt =====
-- `populate_rootfs` of kernel/src/main.rs: the files that are there when the first program starts.
use ferrum_os.Prelude.{
  ℕ, ◌^◌, ◌<◌, ◌≡◌, refl, ◌∙◌, ap, sym, true, Option, none, some, is_some, List, [], ◌∷◌, ◌++◌,
  arith, length, Bool-cases, inl, inr,
}
use ferrum_os.Paths.{Str}
use ferrum_os.Ramfs.{
  Ramfs, Entry, str_eq, find_entry, open_node, mkdir, mkdir_at, write_file, write_at, add_entry,
  FileType, regular, directory,
}
use ferrum_os.Io.Names.Exists.{open_node-end, is_some-node_of, mkdir-answer_found}
use ferrum_os.Initramfs.{Extracted, extracted, panicked, out_of_fuel}
use ferrum_os.Initramfs.Bounds.{IsExtracted, extract-IsExtracted}
use ferrum_os.Boot.Made.{KeepsNodes, AllMade, Apart, empty_node, make_dirs-Made, make_devices-Made}
use ferrum_os.Boot.{
  boot_dirs, boot_devices, make_dirs, device_file, make_devices, unpacked, completed,
  populate_rootfs,
}

-- every path that is there stays there
abbrev Keeps : Ramfs → Ramfs → Type 0
Keeps fs fs' = (q : Str) → is_some (open_node fs q) ≡ true → is_some (open_node fs' q) ≡ true

find_entry-kept :
    (es : List Entry) (e : Entry) (q : Str)
    → is_some (find_entry es q) ≡ true
    → is_some (find_entry (es ++ e ∷ []) q) ≡ true
unfolding find_entry
find_entry-kept [] e q h = absurd (ground arith)
find_entry-kept (f ∷ es) e q h = elim (Bool-cases (str_eq f.path q)) [
  | inl c ↦ rw c refl
  | inr c ↦ rw c (find_entry-kept es e q (ground (arith, h, c)))
]

add_entry-Keeps :
    (fs : Ramfs) (path : Str) (file_type : FileType) (bytes : List ℕ)
    → Keeps fs (add_entry fs path file_type bytes)
unfolding open_node
add_entry-Keeps fs path file_type bytes q h =
    let e : Entry = record { path = path; node = length fs.nodes } in
    is_some-node_of (find_entry (fs.entries ++ e ∷ []) q)
    ∙ find_entry-kept fs.entries e q (sym (is_some-node_of (find_entry fs.entries q)) ∙ h)

mkdir_at-Keeps : (fs : Ramfs) (path : Str) (r : Option ℕ) → Keeps fs (mkdir_at fs path r)
mkdir_at-Keeps fs path (some n) q h = h
mkdir_at-Keeps fs path none q h = add_entry-Keeps fs path _ [] q h

mkdir-Keeps : (fs : Ramfs) (path : Str) → Keeps fs (mkdir fs path)
unfolding mkdir
mkdir-Keeps fs path = mkdir_at-Keeps fs path (open_node fs path)

write_at-Keeps :
    (fs : Ramfs) (path : Str) (bytes : List ℕ) (r : Option ℕ) → Keeps fs (write_at fs path bytes r)
unfolding open_node
write_at-Keeps fs path bytes (some n) q h = h
write_at-Keeps fs path bytes none q h = add_entry-Keeps fs path regular bytes q h

write_at-there :
    (fs : Ramfs) (path : Str) (bytes : List ℕ) (r : Option ℕ)
    → open_node fs path ≡ r
    → is_some (open_node (write_at fs path bytes r) path) ≡ true
unfolding open_node
write_at-there fs path bytes (some n) e = ap is_some e
write_at-there fs path bytes none e =
    open_node-end fs.entries (record { path = path; node = length fs.nodes })
      (fs.nodes ++ record { file_type = regular; bytes = bytes } ∷ [])

device_file-Keeps : (fs : Ramfs) (d : Str) (r : Option ℕ) → Keeps fs (device_file fs d r)
unfolding write_file
device_file-Keeps fs d (some n) q h = h
device_file-Keeps fs d none q h = write_at-Keeps fs d [] (open_node fs d) q h

device_file-there :
    (fs : Ramfs) (d : Str) (r : Option ℕ)
    → open_node fs d ≡ r
    → is_some (open_node (device_file fs d r) d) ≡ true
unfolding write_file
device_file-there fs d (some n) e = rw e refl
device_file-there fs d none e = write_at-there fs d [] (open_node fs d) refl

abbrev pub HasAll : Ramfs → List Str → Type 0
HasAll fs [] = Unit {0}
HasAll fs (p ∷ ps) = (is_some (open_node fs p) ≡ true) × HasAll fs ps

HasAll-kept : (fs fs' : Ramfs) (ps : List Str) → Keeps fs fs' → HasAll fs ps → HasAll fs' ps
HasAll-kept fs fs' [] k h = tt
HasAll-kept fs fs' (p ∷ ps) k h = (k p h.0, HasAll-kept fs fs' ps k h.1)

make_dirs-Keeps : (ds : List Str) (fs : Ramfs) → Keeps fs (make_dirs ds fs)
unfolding make_dirs
make_dirs-Keeps [] fs q h = h
make_dirs-Keeps (d ∷ ds) fs q h = make_dirs-Keeps ds (mkdir fs d) q (mkdir-Keeps fs d q h)

make_dirs-HasAll : (ds : List Str) (fs : Ramfs) → HasAll (make_dirs ds fs) ds
unfolding make_dirs
make_dirs-HasAll [] fs = tt
make_dirs-HasAll (d ∷ ds) fs =
    (make_dirs-Keeps ds (mkdir fs d) d (mkdir-answer_found fs d), make_dirs-HasAll ds (mkdir fs d))

make_devices-Keeps : (ds : List Str) (fs : Ramfs) → Keeps fs (make_devices ds fs)
unfolding make_devices
make_devices-Keeps [] fs q h = h
make_devices-Keeps (d ∷ ds) fs q h =
    let fs' = device_file fs d (open_node fs d) in
    make_devices-Keeps ds fs' q (device_file-Keeps fs d (open_node fs d) q h)

make_devices-HasAll : (ds : List Str) (fs : Ramfs) → HasAll (make_devices ds fs) ds
unfolding make_devices
make_devices-HasAll [] fs = tt
make_devices-HasAll (d ∷ ds) fs =
    let fs' = device_file fs d (open_node fs d) in
    (
      make_devices-Keeps ds fs' d (device_file-there fs d (open_node fs d) refl),
      make_devices-HasAll ds fs',
    )

-- What completing `fs` to `fs'` comes to: all paths are there, what was there is as it was, and each
-- path that was free has an empty directory, or an empty file for a device.
abbrev pub Completed : Ramfs → Ramfs → Type 0
Completed fs fs' =
    HasAll fs' boot_dirs
    × HasAll fs' boot_devices
    × KeepsNodes fs fs'
    × AllMade directory fs fs' boot_dirs
    × AllMade regular fs fs' boot_devices

-- The root file system is complete.
abbrev pub IsPopulated : Extracted → Extracted → Type 0
IsPopulated (extracted fs) (extracted fs') = Completed fs fs'
IsPopulated _ _ = ⊥

AllMade-then :
    (file_type : FileType) (fs fs1 fs2 : Ramfs) (ps : List Str)
    → KeepsNodes fs1 fs2
    → AllMade file_type fs fs1 ps
    → AllMade file_type fs fs2 ps
AllMade-then file_type fs fs1 fs2 [] keeps made = tt
AllMade-then file_type fs fs1 fs2 (p ∷ ps) keeps made = (
  λ free. keeps p (empty_node file_type) (made.0 free),
  AllMade-then file_type fs fs1 fs2 ps keeps made.1,
)

abbrev AllApart : List Str → List Str → Type 0
AllApart [] ds = Unit {0}
AllApart (p ∷ ps) ds = Apart p ds × AllApart ps ds

AllMade-before :
    (file_type : FileType) (fs fs1 fs2 : Ramfs) (ds ps : List Str)
    → ((q : Str) → open_node fs q ≡ none → Apart q ds → open_node fs1 q ≡ none)
    → AllApart ps ds
    → AllMade file_type fs1 fs2 ps
    → AllMade file_type fs fs2 ps
AllMade-before file_type fs fs1 fs2 ds [] free apart made = tt
AllMade-before file_type fs fs1 fs2 ds (p ∷ ps) free apart made =
    (λ e. made.0 (free p e apart.0), AllMade-before file_type fs fs1 fs2 ds ps free apart.1 made.1)

devices_apart : AllApart boot_devices boot_dirs
devices_apart = (
  (refl, (refl, (refl, (refl, tt)))),
  ((refl, (refl, (refl, (refl, tt)))), ((refl, (refl, (refl, (refl, tt)))), tt)),
)

make-Completed : (fs : Ramfs) → Completed fs (make_devices boot_devices (make_dirs boot_dirs fs))
make-Completed fs =
    let fs1 = make_dirs boot_dirs fs in
    let fs2 = make_devices boot_devices fs1 in
    let (keeps, dirs, free) = make_dirs-Made boot_dirs fs in
    let (keeps', devices, _) = make_devices-Made boot_devices fs1 in
    (
      HasAll-kept fs1 fs2 boot_dirs (make_devices-Keeps boot_devices fs1)
          (make_dirs-HasAll boot_dirs fs),
      make_devices-HasAll boot_devices fs1,
      λ q node h. keeps' q node (keeps q node h),
      AllMade-then directory fs fs1 fs2 boot_dirs keeps' dirs,
      AllMade-before regular fs fs1 fs2 boot_dirs boot_devices free devices_apart devices,
    )

completed-IsPopulated : (r : Extracted) → IsExtracted r → IsPopulated r (completed r)
completed-IsPopulated (extracted fs) h = make-Completed fs
completed-IsPopulated panicked h = h
completed-IsPopulated out_of_fuel h = h

abbrev pub archive_size : Option (List ℕ) → ℕ
archive_size none = 0
archive_size (some archive) = length archive

unpacked-IsExtracted :
    (from_utf8 : List ℕ → Option Str) (archive : Option (List ℕ)) (fs : Ramfs)
    → archive_size archive < 2 ^ 63
    → IsExtracted (unpacked from_utf8 fs archive)
unpacked-IsExtracted from_utf8 none fs h = tt
unpacked-IsExtracted from_utf8 (some archive) fs h = extract-IsExtracted from_utf8 archive h fs

-- With no archive or one shorter than 2 ^ 63 bytes, whatever its bytes are, populate_rootfs ends,
-- and in its file system the paths /dev, /proc, /tmp, /etc, /dev/null, /dev/zero and /dev/tty are
-- found; of what the archive left, every path is found with its type and bytes; and each of the
-- first four that the archive left free is an empty directory, and each of the last three an empty
-- file.
pub populate_rootfs-IsPopulated :
    (from_utf8 : List ℕ → Option Str) (archive : Option (List ℕ)) (fs : Ramfs)
    → archive_size archive < 2 ^ 63
    → IsPopulated (unpacked from_utf8 fs archive) (populate_rootfs from_utf8 archive fs)
unfolding populate_rootfs
populate_rootfs-IsPopulated from_utf8 archive fs h =
    completed-IsPopulated (unpacked from_utf8 fs archive)
      (unpacked-IsExtracted from_utf8 archive fs h)
