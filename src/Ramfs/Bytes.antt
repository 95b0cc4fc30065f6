-- ===== src/Ramfs/Bytes.antt =====
-- Reads and writes of one file of kernel/src/fs/ramfs.rs, byte by byte.
use mathlib.Core.Path.{subst}
use ferrum_os.Prelude.{
  ℕ, zero, suc, ◌+◌, ◌-◌, ◌^◌, ◌<◌, ◌≤◌, ◌≡◌, refl, ◌∙◌, ap, false, ◌&&◌, Option, none, some, List,
  [], ◌∷◌, ◌++◌, ltb, leb, if◌then◌else◌, length, get_elem?, take, drop, replicate, arith,
  Bool-cases, inl, inr, length-append, length-take,
}
use ferrum_os.Ramfs.{RamfsNode, read_inner, grow, overwrite, written_node, write_inner}

get_elem?-drop : (n : ℕ) (xs : List ℕ) (i : ℕ) → get_elem? (drop n xs) i ≡ get_elem? xs (n + i)
get_elem?-drop zero xs i = ground arith
get_elem?-drop (suc n) [] i = ground arith
get_elem?-drop (suc n) (x ∷ xs) i =
    let e : suc (n + i) ≡ suc n + i = omega arith in
    get_elem?-drop n xs i ∙ ap (get_elem? (x ∷ xs)) e

get_elem?-take :
    (n : ℕ) (xs : List ℕ) (i : ℕ)
    → get_elem? (take n xs) i ≡ (if ltb i n then get_elem? xs i else none)
get_elem?-take zero xs i = ground arith
get_elem?-take (suc n) [] i = ground arith
get_elem?-take (suc n) (x ∷ xs) zero = ground arith
get_elem?-take (suc n) (x ∷ xs) (suc i) = ground (arith, get_elem?-take n xs i)

get_elem?-join :
    (xs ys : List ℕ) (i : ℕ)
    → get_elem? (xs ++ ys) i
      ≡ (if ltb i (length xs) then get_elem? xs i else get_elem? ys (i - length xs))
get_elem?-join [] ys i = ground arith
get_elem?-join (x ∷ xs) ys zero = ground arith
get_elem?-join (x ∷ xs) ys (suc i) = ground (arith, get_elem?-join xs ys i)

get_elem?-replicate : (n a i : ℕ) → get_elem? (replicate n a) i ≡ (if ltb i n then some a else none)
get_elem?-replicate zero a i = ground arith
get_elem?-replicate (suc n) a zero = ground arith
get_elem?-replicate (suc n) a (suc i) = ground (arith, get_elem?-replicate n a i)

length-replicate : (n a : ℕ) → length (replicate n a) ≡ n
length-replicate zero a = refl
length-replicate (suc n) a = ap suc (length-replicate n a)

length-grow : (bytes : List ℕ) (end : ℕ) → end ≤ length (grow bytes end)
length-grow bytes end = ground (
  arith,
  length-append bytes (replicate (end - length bytes) 0),
  length-replicate (end - length bytes) 0,
)

-- the byte of a file at `i`, after a write of `buf` at `offset`: of the buffer, of the old file, or a
-- zero between the old end and the buffer
abbrev pub byte_after : List ℕ → ℕ → List ℕ → ℕ → Option ℕ
byte_after bytes offset buf i =
    if leb offset i && ltb i (offset + length buf)
    then get_elem? buf (i - offset)
    else if ltb i (length bytes)
    then get_elem? bytes i
    else if ltb i offset
    then some 0
    else none

past_end : (xs : List ℕ) (i : ℕ) → length xs ≤ i → get_elem? xs i ≡ none
past_end [] i h = refl
past_end (x ∷ xs) zero h = absurd (omega arith)
past_end (x ∷ xs) (suc i) h = past_end xs i (omega arith)

get_elem?-grow :
    (bytes : List ℕ) (end i : ℕ)
    → get_elem? (grow bytes end) i ≡ (
        if ltb i (length bytes)
        then get_elem? bytes i
        else if ltb i end
        then some 0
        else get_elem? bytes i)
get_elem?-grow bytes end i = elim (Bool-cases (ltb (length bytes) end)) [
  | inl c ↦ rw c (
      ground (
        arith,
        get_elem?-join bytes (replicate (end - length bytes) 0) i,
        get_elem?-replicate (end - length bytes) 0 (i - length bytes),
        past_end bytes i,
      ))
  | inr c ↦ rw c (ground arith)
]

get_elem?-overwrite :
    (g : List ℕ) (offset : ℕ) (buf : List ℕ) (i : ℕ)
    → offset + length buf ≤ length g
    → get_elem? (overwrite g offset buf) i ≡ (
        if leb offset i && ltb i (offset + length buf)
        then get_elem? buf (i - offset)
        else get_elem? g i)
get_elem?-overwrite g offset buf i h =
    let lt = length-take offset g (omega (arith, h)) in
    let rest = buf ++ drop (offset + length buf) g in
    let outer : get_elem? (take offset g ++ rest) i
        ≡ (if ltb i offset then get_elem? (take offset g) i else get_elem? rest (i - offset)) =
      subst
        (λ n.
          get_elem? (take offset g ++ rest) i
          ≡ (if ltb i n then get_elem? (take offset g) i else get_elem? rest (i - n)))
        lt (get_elem?-join (take offset g) rest i) in
    let inner = get_elem?-join buf (drop (offset + length buf) g) (i - offset) in
    let before = get_elem?-take offset g i in
    let after = get_elem?-drop (offset + length buf) g (i - offset - length buf) in
    elim (Bool-cases (ltb i (offset + length buf))) [
      | inl c ↦ outer ∙ ground (arith, inner, before)
      | inr c ↦
          let same : offset + length buf + (i - offset - length buf) ≡ i = ground arith in
          let at = ap (get_elem? g) same in outer ∙ ground (arith, inner, after, at)
    ]

written_node-bytes :
    (node : RamfsNode) (offset : ℕ) (buf : List ℕ) (i : ℕ)
    → get_elem? (written_node node offset buf).bytes i ≡ byte_after node.bytes offset buf i
written_node-bytes node offset buf i =
    let end = offset + length buf in
    get_elem?-overwrite (grow node.bytes end) offset buf i (length-grow node.bytes end)
    ∙ ground (arith, get_elem?-grow node.bytes end i, past_end node.bytes i)

-- What a write of `buf` at `offset` comes to: a panic, or the node with its new bytes.
abbrev pub Wrote : RamfsNode → ℕ → List ℕ → Option RamfsNode → Type 0
Wrote node offset buf none = 2 ^ 63 ≤ offset + length buf
Wrote node offset buf (some node') =
    (offset + length buf < 2 ^ 63)
    × (node'.file_type ≡ node.file_type)
    × ((i : ℕ) → get_elem? node'.bytes i ≡ byte_after node.bytes offset buf i)

-- A write of a buffer at an offset panics exactly if the written range ends at 2 ^ 63 or behind.
-- After any other, each byte of the file is the buffer's in the written range, and else what it
-- was; a gap between the old end and the range is filled with zeros, and behind the range a file
-- that was not longer ends.
pub write_inner-bytes :
    (node : RamfsNode) (offset : ℕ) (buf : List ℕ)
    → Wrote node offset buf (write_inner node offset buf)
unfolding write_inner
write_inner-bytes node offset buf = elim (Bool-cases (ltb (offset + length buf) (2 ^ 63))) [
  | inl c ↦ rw (c, Wrote) (ground arith, refl, written_node-bytes node offset buf)
  | inr c ↦ rw (c, Wrote) (ground arith)
]

take-prefix : (xs ys : List ℕ) → take (length xs) (xs ++ ys) ≡ xs
take-prefix [] ys = refl
take-prefix (x ∷ xs) ys = ap (λ r. x ∷ r) (take-prefix xs ys)

drop-prefix : (xs ys : List ℕ) → drop (length xs) (xs ++ ys) ≡ ys
drop-prefix [] ys = refl
drop-prefix (x ∷ xs) ys = drop-prefix xs ys

-- A read of as many bytes as were written, at the offset of the write, returns what was written.
pub read_inner-written_node :
    (node : RamfsNode) (offset : ℕ) (buf : List ℕ)
    → read_inner (written_node node offset buf) offset (length buf) ≡ buf
unfolding read_inner
read_inner-written_node node offset [] =
    elim (Bool-cases (leb (length (overwrite (grow node.bytes (offset + 0)) offset [])) offset)) [
      | inl c ↦ rw c refl
      | inr c ↦ rw c refl
    ]
read_inner-written_node node offset (b ∷ bs) =
    let end = offset + length (b ∷ bs) in
    let g = grow node.bytes end in
    let lt = length-take offset g (omega (arith, length-grow node.bytes end)) in
    let rest = (b ∷ bs) ++ drop end g in
    let behind : drop offset (take offset g ++ rest) ≡ rest =
      subst (λ n. drop n (take offset g ++ rest) ≡ rest) lt (drop-prefix (take offset g) rest) in
    let inside : leb (length (take offset g ++ rest)) offset ≡ false =
      ground (arith, length-append (take offset g) rest, lt) in
    rw (inside, behind) (take-prefix (b ∷ bs) (drop end g))
