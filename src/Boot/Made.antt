-- ===== src/Boot/Made.antt =====
-- `populate_rootfs` of kernel/src/main.rs: what stands at the paths that it completes.
use mathlib.Core.Path.{subst}
use ferrum_os.Prelude.{
  ℕ, ◌≡◌, refl, lt_of_get_elem?, ◌∙◌, sym, true, false, Option, none, some, List, [], ◌∷◌, ◌++◌,
  ◌⊎◌, arith, length, get_elem?, Bool-cases, inl, inr,
}
use ferrum_os.Paths.{Str}
use ferrum_os.Ramfs.{
  Ramfs, RamfsNode, Entry, str_eq, node_of, find_entry, open_node, mkdir, mkdir_at, write_file,
  write_at, add_entry, FileType, regular, directory,
}
use ferrum_os.Ramfs.Tree.{str_eq_refl, node_at_end, node_before}
use ferrum_os.Boot.{make_dirs, device_file, make_devices}

-- `open` finds that node at the path.
abbrev pub Holds : Ramfs → Str → RamfsNode → Type 0
Holds fs q node = (n : ℕ) × (open_node fs q ≡ some n) × (get_elem? fs.nodes n ≡ some node)

abbrev pub KeepsNodes : Ramfs → Ramfs → Type 0
KeepsNodes fs fs' = (q : Str) (node : RamfsNode) → Holds fs q node → Holds fs' q node

abbrev pub empty_node : FileType → RamfsNode
empty_node file_type = record { file_type = file_type; bytes = [] }

find_entry-before :
    (es : List Entry) (e : Entry) (q : Str) (n : ℕ)
    → node_of (find_entry es q) ≡ some n
    → node_of (find_entry (es ++ e ∷ []) q) ≡ some n
unfolding find_entry
find_entry-before [] e q n h = absurd (ground arith)
find_entry-before (f ∷ es) e q n h = elim (Bool-cases (str_eq f.path q)) [
  | inl c ↦ ground (arith, h, c)
  | inr c ↦ rw c (find_entry-before es e q n (ground (arith, h, c)))
]

-- Where there was no entry, only the new one is found.
find_entry-behind :
    (es : List Entry) (e : Entry) (q : Str)
    → node_of (find_entry es q) ≡ none
    → node_of (find_entry (es ++ e ∷ []) q) ≡ node_of (find_entry (e ∷ []) q)
unfolding find_entry
find_entry-behind [] e q h = refl
find_entry-behind (f ∷ es) e q h = elim (Bool-cases (str_eq f.path q)) [
  | inl c ↦ absurd (ground (arith, h, c))
  | inr c ↦ rw c (find_entry-behind es e q (ground (arith, h, c)))
]

find_new :
    (e : Entry) (q : Str)
    → (node_of (find_entry (e ∷ []) q) ≡ none)
      ⊎ ((str_eq e.path q ≡ true) × (node_of (find_entry (e ∷ []) q) ≡ some e.node))
unfolding find_entry
find_new e q = elim (Bool-cases (str_eq e.path q)) [
  | inl c ↦ inr (c, rw c refl)
  | inr c ↦ inl (rw c refl)
]

find_own : (e : Entry) → node_of (find_entry (e ∷ []) e.path) ≡ some e.node
unfolding find_entry
find_own e = rw (str_eq_refl e.path) refl

-- What one step does that makes an empty node at a path, if there is none: it keeps the others.
abbrev Step : FileType → Str → Ramfs → Ramfs → Type 0
Step file_type path fs fs' =
    KeepsNodes fs fs'
    × (open_node fs path ≡ none → Holds fs' path (empty_node file_type))
    × ((q : Str)
        → open_node fs q ≡ none
        → (open_node fs' q ≡ none) ⊎ ((str_eq path q ≡ true) × Holds fs' q (empty_node file_type)))

unchanged-Step :
    (file_type : FileType) (path : Str) (fs : Ramfs) (n : ℕ)
    → open_node fs path ≡ some n
    → Step file_type path fs fs
unchanged-Step file_type path fs n e =
    (λ q node h. h, λ free. absurd (ground (arith, e, free)), λ q free. inl free)

added-Step :
    (fs : Ramfs) (path : Str) (file_type : FileType)
    → open_node fs path ≡ none
    → Step file_type path fs (add_entry fs path file_type [])
unfolding open_node
added-Step fs path file_type free =
    let e : Entry = record { path = path; node = length fs.nodes } in
    let node = empty_node file_type in
    let made : (q : Str)
        → node_of (find_entry fs.entries q) ≡ none
        → (node_of (find_entry (fs.entries ++ e ∷ []) q) ≡ none)
          ⊎ ((str_eq path q ≡ true) × Holds (add_entry fs path file_type []) q node) =
      λ q none_there. elim (find_new e q) [
        | inl c ↦ inl (find_entry-behind fs.entries e q none_there ∙ c)
        | inr c ↦ inr (
          c.0,
          (
            length fs.nodes,
            find_entry-behind fs.entries e q none_there ∙ c.1,
            node_at_end fs.nodes node,
          ),
        )
      ] in
    (
      λ q old h. (
        h.0,
        find_entry-before fs.entries e q h.0 h.1,
        node_before fs.nodes node h.0 (lt_of_get_elem? fs.nodes h.0 old h.2) ∙ h.2,
      ),
      λ none_there. (
        length fs.nodes,
        find_entry-behind fs.entries e path none_there ∙ find_own e,
        node_at_end fs.nodes node,
      ),
      made,
    )

mkdir-Step : (fs : Ramfs) (d : Str) → Step directory d fs (mkdir fs d)
unfolding mkdir
mkdir-Step fs d = go (open_node fs d) refl
  where
    go : (r : Option ℕ) → open_node fs d ≡ r → Step directory d fs (mkdir_at fs d r)
    go none e = added-Step fs d directory e
    go (some n) e = unchanged-Step directory d fs n e

device_file-Step : (fs : Ramfs) (d : Str) → Step regular d fs (device_file fs d (open_node fs d))
unfolding write_file
device_file-Step fs d = go (open_node fs d) refl
  where
    go : (r : Option ℕ) → open_node fs d ≡ r → Step regular d fs (device_file fs d r)
    go none e =
        subst (λ r. Step regular d fs (write_at fs d [] r)) (sym e) (added-Step fs d regular e)
    go (some n) e = unchanged-Step regular d fs n e

-- Each path that was free has an empty node of the type.
abbrev pub AllMade : FileType → Ramfs → Ramfs → List Str → Type 0
AllMade file_type fs fs' [] = Unit {0}
AllMade file_type fs fs' (d ∷ ds) =
    (open_node fs d ≡ none → Holds fs' d (empty_node file_type)) × AllMade file_type fs fs' ds

-- No path of the list is `q`.
abbrev pub Apart : Str → List Str → Type 0
Apart q [] = Unit {0}
Apart q (d ∷ ds) = (str_eq d q ≡ false) × Apart q ds

abbrev pub Made : FileType → List Str → Ramfs → Ramfs → Type 0
Made file_type ds fs fs' =
    KeepsNodes fs fs'
    × AllMade file_type fs fs' ds
    × ((q : Str) → open_node fs q ≡ none → Apart q ds → open_node fs' q ≡ none)

Step-AllMade :
    (file_type : FileType) (d : Str) (fs fs1 fs2 : Ramfs) (ds : List Str)
    → Step file_type d fs fs1
    → KeepsNodes fs1 fs2
    → AllMade file_type fs1 fs2 ds
    → AllMade file_type fs fs2 ds
Step-AllMade file_type d fs fs1 fs2 [] step keeps made = tt
Step-AllMade file_type d fs fs1 fs2 (p ∷ ps) step keeps made = (
  λ free. elim (step.2 p free) [
    | inl still ↦ made.0 still
    | inr now ↦ keeps p (empty_node file_type) now.1
  ],
  Step-AllMade file_type d fs fs1 fs2 ps step keeps made.1,
)

Step-Made :
    (file_type : FileType) (d : Str) (ds : List Str) (fs fs1 fs2 : Ramfs)
    → Step file_type d fs fs1
    → Made file_type ds fs1 fs2
    → Made file_type (d ∷ ds) fs fs2
Step-Made file_type d ds fs fs1 fs2 step made = (
  λ q node h. made.0 q node (step.0 q node h),
  (
    λ free. made.0 d (empty_node file_type) (step.1 free),
    Step-AllMade file_type d fs fs1 fs2 ds step made.0 made.1,
  ),
  λ q free apart. elim (step.2 q free) [
    | inl still ↦ made.2 q still apart.1
    | inr now ↦ absurd (ground (arith, now.0, apart.0))
  ],
)

pub make_dirs-Made : (ds : List Str) (fs : Ramfs) → Made directory ds fs (make_dirs ds fs)
unfolding make_dirs
make_dirs-Made [] fs = (λ q node h. h, tt, λ q free apart. free)
make_dirs-Made (d ∷ ds) fs =
    let fs' = mkdir fs d in
    Step-Made directory d ds fs fs' (make_dirs ds fs') (mkdir-Step fs d) (make_dirs-Made ds fs')

pub make_devices-Made : (ds : List Str) (fs : Ramfs) → Made regular ds fs (make_devices ds fs)
unfolding make_devices
make_devices-Made [] fs = (λ q node h. h, tt, λ q free apart. free)
make_devices-Made (d ∷ ds) fs =
    let fs' = device_file fs d (open_node fs d) in
    Step-Made regular d ds fs fs' (make_devices ds fs') (device_file-Step fs d)
      (make_devices-Made ds fs')
