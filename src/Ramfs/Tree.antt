-- ===== src/Ramfs/Tree.antt =====
-- The paths of kernel/src/fs/ramfs.rs: what `open` finds after each operation.
use ferrum_os.Prelude.{
  ℕ, zero, suc, ◌<◌, ◌≡◌, refl, sym, ◌∙◌, ap, Bool, true, false, Option, none, some, is_some, List,
  [], ◌∷◌, ◌++◌, if◌then◌else◌, length, get_elem?, arith, Bool-cases, inl, inr, Result, ok, err,
  not_found, file_exists,
}
use ferrum_os.Paths.{Str}
use ferrum_os.Ramfs.{
  FileType, RamfsNode, Entry, Ramfs, str_eq, find_entry, node_of, open_node, create_at, create,
  remove_entry, unlink_at, unlink,
}

str_eq-eq : (a b : Str) → str_eq a b ≡ true → a ≡ b
str_eq-eq [] [] h = refl
str_eq-eq [] (d ∷ ds) h = absurd (ground arith)
str_eq-eq (c ∷ cs) [] h = absurd (ground arith)
str_eq-eq (c ∷ cs) (d ∷ ds) h =
    let e : c ≡ d = ground arith in let r : cs ≡ ds = str_eq-eq cs ds (ground arith) in cc

pub str_eq_refl : (a : Str) → str_eq a a ≡ true
str_eq_refl [] = refl
str_eq_refl (c ∷ cs) = ground (arith, str_eq_refl cs)

str_eq_ne : (f e q : Str) → str_eq f e ≡ false → str_eq e q ≡ true → str_eq f q ≡ false
str_eq_ne f e q h t = ap (str_eq f) (sym (str_eq-eq e q t)) ∙ h

str_eq_sym : (a b : Str) → str_eq a b ≡ false → str_eq b a ≡ false
str_eq_sym a b h = elim (Bool-cases (str_eq b a)) [
  | inl c ↦ absurd (ground (arith, str_eq_refl a, ap (str_eq a) (str_eq-eq b a c), h))
  | inr c ↦ c
]

-- No two entries have the same path.
abbrev pub IsUnique : List Entry → Type 0
IsUnique [] = Unit {0}
IsUnique (e ∷ es) = (find_entry es e.path ≡ none) × IsUnique es

find_entry-append :
    (es : List Entry) (e : Entry) (q : Str)
    → find_entry es e.path ≡ none
    → find_entry (es ++ e ∷ []) q ≡ (if str_eq e.path q then some e else find_entry es q)
unfolding find_entry
find_entry-append [] e q h = refl
find_entry-append (f ∷ es) e q h =
    let differ : str_eq f.path e.path ≡ false = ground arith in
    let later = find_entry-append es e q (ground arith) in
    elim (Bool-cases (str_eq e.path q)) [
      | inl c ↦ rw (c, str_eq_ne f.path e.path q differ c) (ground (arith, later, c))
      | inr c ↦ rw c (ground (arith, later, c))
    ]

IsUnique-append :
    (es : List Entry) (e : Entry)
    → IsUnique es
    → find_entry es e.path ≡ none
    → IsUnique (es ++ e ∷ [])
unfolding find_entry
IsUnique-append [] e u h = (refl, tt)
IsUnique-append (f ∷ es) e u h =
    let differ : str_eq f.path e.path ≡ false = ground arith in
    let later = find_entry-append es e f.path (ground arith) in
    (
      ground (arith, later, u.0, str_eq_sym f.path e.path differ),
      IsUnique-append es e u.1 (ground arith),
    )

find_entry-remove_entry :
    (es : List Entry) (p q : Str)
    → IsUnique es
    → find_entry (remove_entry es p) q ≡ (if str_eq p q then none else find_entry es q)
unfolding find_entry remove_entry
find_entry-remove_entry [] p q u = ground arith
find_entry-remove_entry (e ∷ es) p q u = elim (Bool-cases (str_eq e.path p)) [
  | inl c ↦
      let at = str_eq-eq e.path p c in
      rw c (elim (Bool-cases (str_eq p q)) [
        | inl d ↦
            let same : e.path ≡ q = at ∙ str_eq-eq p q d in
            rw d (ap (find_entry es) (sym same) ∙ u.0)
        | inr d ↦
            let other : str_eq e.path q ≡ false = ap (λ r. str_eq r q) at ∙ d in rw (d, other) refl
      ])
  | inr c ↦
      let later = find_entry-remove_entry es p q u.1 in
      rw c (elim (Bool-cases (str_eq p q)) [
        | inl d ↦ rw (d, str_eq_ne e.path p q c d) (ground (arith, later, d))
        | inr d ↦ rw d (ground (arith, later, d))
      ])
]

IsUnique-remove_entry : (es : List Entry) (p : Str) → IsUnique es → IsUnique (remove_entry es p)
unfolding remove_entry
IsUnique-remove_entry [] p u = tt
IsUnique-remove_entry (e ∷ es) p u = elim (Bool-cases (str_eq e.path p)) [
  | inl c ↦ rw c u.1
  | inr c ↦ rw c (
    find_entry-remove_entry es p e.path u.1 ∙ ground (arith, u.0),
    IsUnique-remove_entry es p u.1,
  )
]

-- What `create` promises: it refuses a path that is there, and else adds an empty file at the path,
-- and no other path is found elsewhere than before.
abbrev pub Created : Ramfs → Str → FileType → Result Ramfs → Type 0
Created fs path file_type (ok fs') =
    (open_node fs path ≡ none)
    × IsUnique fs'.entries
    × ((q : Str)
        → open_node fs' q ≡ (if str_eq path q then some (length fs.nodes) else open_node fs q))
    × (get_elem? fs'.nodes (length fs.nodes) ≡ some (record { file_type = file_type; bytes = [] }))
    × ((k : ℕ) → k < length fs.nodes → get_elem? fs'.nodes k ≡ get_elem? fs.nodes k)
Created fs path file_type (err e) = (e ≡ file_exists) × (is_some (open_node fs path) ≡ true)

-- What `unlink` promises: it refuses a path that is not there, and else the path is not found any
-- more, other paths are as before, and the nodes stay, for handles that are open.
abbrev pub Unlinked : Ramfs → Str → Result Ramfs → Type 0
Unlinked fs path (ok fs') =
    (is_some (open_node fs path) ≡ true)
    × IsUnique fs'.entries
    × ((q : Str) → open_node fs' q ≡ (if str_eq path q then none else open_node fs q))
    × (fs'.nodes ≡ fs.nodes)
Unlinked fs path (err e) = (e ≡ not_found) × (open_node fs path ≡ none)

absent : (r : Option Entry) → node_of r ≡ none → r ≡ none
absent none h = refl
absent (some e) h = absurd (ground arith)

pub node_at_end :
    (ns : List RamfsNode) (n : RamfsNode) → get_elem? (ns ++ n ∷ []) (length ns) ≡ some n
node_at_end [] n = refl
node_at_end (m ∷ ns) n = node_at_end ns n

pub node_before :
    (ns : List RamfsNode) (n : RamfsNode) (k : ℕ)
    → k < length ns
    → get_elem? (ns ++ n ∷ []) k ≡ get_elem? ns k
node_before [] n k h = absurd (omega arith)
node_before (m ∷ ns) n zero h = refl
node_before (m ∷ ns) n (suc k) h = node_before ns n k (omega arith)

node_of_if :
    (b : Bool) (x y : Option Entry)
    → node_of (if b then x else y) ≡ (if b then node_of x else node_of y)
node_of_if true x y = refl
node_of_if false x y = refl

module _ (fs : Ramfs) (path : Str) (u : IsUnique fs.entries) where
  create_at-Created :
      (file_type : FileType) (r : Option ℕ)
      → open_node fs path ≡ r
      → Created fs path file_type (create_at fs path file_type r)
  unfolding open_node
  create_at-Created file_type (some n) e = (refl, ap is_some e)
  create_at-Created file_type none e =
      let new : Entry = record { path = path; node = length fs.nodes } in
      let free = absent (find_entry fs.entries path) e in
      (
        e,
        IsUnique-append fs.entries new u free,
        λ q.
            ap node_of (find_entry-append fs.entries new q free)
            ∙ node_of_if (str_eq path q) (some new) (find_entry fs.entries q),
        node_at_end fs.nodes (record { file_type = file_type; bytes = [] }),
        node_before fs.nodes (record { file_type = file_type; bytes = [] }),
      )

  -- In a file system whose entries have different paths, create refuses a path that is there, and
  -- else gives the path a new empty node of the asked type; every other path is found as before,
  -- the old nodes are unchanged, and the paths are still different.
  pub create-Created : (file_type : FileType) → Created fs path file_type (create fs path file_type)
  unfolding create
  create-Created file_type = create_at-Created file_type (open_node fs path) refl

  unlink_at-Unlinked :
      (r : Option ℕ) → open_node fs path ≡ r → Unlinked fs path (unlink_at fs path r)
  unfolding open_node
  unlink_at-Unlinked none e = (refl, e)
  unlink_at-Unlinked (some n) e = (
    ap is_some e,
    IsUnique-remove_entry fs.entries path u,
    λ q.
        ap node_of (find_entry-remove_entry fs.entries path q u)
        ∙ node_of_if (str_eq path q) none (find_entry fs.entries q),
    refl,
  )

  -- In a file system whose entries have different paths, unlink refuses a path that is not there,
  -- and else the path is not found any more, every other path is found as before, the nodes are
  -- unchanged, and the paths are still different.
  pub unlink-Unlinked : Unlinked fs path (unlink fs path)
  unfolding unlink
  unlink-Unlinked = unlink_at-Unlinked (open_node fs path) refl
