-- ===== src/Initramfs/Bounds.antt =====
-- The loop of kernel/src/initramfs.rs: it reads nothing out of bounds, and it ends.
use native.Mathlib.Nat.{mod-eq_of_lt}
use ferrum_os.Prelude.{
  ℕ, zero, suc, ◌+◌, ◌-◌, ◌*◌, ◌^◌, ◌≤◌, ◌<◌, ◌≡◌, refl, true, ◌&&◌, Option, none, some, List, ltb,
  leb, length, take, drop, add64, arith, Bool-cases, inl, inr,
}
use ferrum_os.Paths.{Str}
use ferrum_os.Ramfs.{Ramfs, str_eq}
use ferrum_os.Initramfs.{
  align4, Header, parse, trailer, newc_magic, header_size, Round, stop, next, panic, sliced,
  on_data, on_name, on_header, on_magic, round, extracted, panicked, Extracted, out_of_fuel,
  unpack_rounds, extract, name_of, until_nul,
}
use ferrum_os.Initramfs.Digits.{parse-below}

add64-eq : (a b : ℕ) → a + b < 2 ^ 64 → add64 a b ≡ a + b
add64-eq a b h = mod-eq_of_lt h

align4-bounds : (x : ℕ) → x + 3 < 2 ^ 64 → (x ≤ align4 x) × (align4 x ≤ x + 3)
align4-bounds x h = rw (add64-eq x 3 h) (omega arith, omega arith)

-- What a round promises in an archive of `n` bytes: no slice is out of bounds, and the position
-- moves on by at least a header and stays at most three bytes behind the end.
abbrev Fits : ℕ → ℕ → Round → Type 0
Fits n pos (stop fs) = Unit {0}
Fits n pos (next pos' fs) = (pos + header_size ≤ pos') × (pos' ≤ n + 3)
Fits n pos panic = ⊥

sliced-Fits :
    (n pos : ℕ) (archive : List ℕ) (start end : ℕ) (body : List ℕ → Round)
    → start ≤ end
    → end ≤ length archive
    → ((bytes : List ℕ) → Fits n pos (body bytes))
    → Fits n pos (sliced archive start end body)
sliced-Fits n pos archive start end body lo hi h =
    let inside : leb start end && leb end (length archive) ≡ true = ground arith in
    rw inside (h (take (end - start) (drop start archive)))

-- The extraction ends with a file system.
abbrev pub IsExtracted : Extracted → Type 0
IsExtracted (extracted fs) = Unit {0}
IsExtracted panicked = ⊥
IsExtracted out_of_fuel = ⊥

module _ (from_utf8 : List ℕ → Option Str) (archive : List ℕ)
    (short : length archive < 2 ^ 63) where
  on_name-Fits :
      (hdr : Header) (pos start : ℕ) (fs : Ramfs) (name : Str)
      → pos ≤ length archive + 3
      → start + header_size ≤ pos
      → hdr.filesize < 2 ^ 32
      → Fits (length archive) start (on_name archive hdr pos fs name)
  on_name-Fits hdr pos start fs name hi lo small =
      let sum = add64-eq pos hdr.filesize (omega (arith, short, hi, small)) in
      elim (Bool-cases (str_eq name trailer)) [
        | inl c ↦ rw c tt
        | inr c ↦ rw c (elim (Bool-cases (ltb (length archive) (add64 pos hdr.filesize))) [
          | inl d ↦ rw d tt
          | inr d ↦
              let end = add64 pos hdr.filesize in
              let inside : end ≤ length archive = ground arith in
              let (up, down) = align4-bounds end (omega (arith, inside, short)) in
              rw d (
                sliced-Fits (length archive) start archive pos end (on_data name hdr end fs)
                  (omega (arith, sum)) inside
                  (λ bytes. (omega (arith, sum, up, lo), omega (arith, down, inside))))
        ])
      ]

  on_header-Fits :
      (pos start : ℕ) (fs : Ramfs) (r : Option Header)
      → pos ≤ length archive
      → start + header_size ≤ pos
      → ((hdr : Header) → r ≡ some hdr → (hdr.filesize < 2 ^ 32) × (hdr.namesize < 2 ^ 32))
      → Fits (length archive) start (on_header from_utf8 archive pos fs r)
  on_header-Fits pos start fs none hi lo small = tt
  on_header-Fits pos start fs (some hdr) hi lo small =
      let (file_small, name_small) = small hdr refl in
      let sum = add64-eq pos hdr.namesize (omega (arith, short, hi, name_small)) in
      let end = add64 pos hdr.namesize in
      elim (Bool-cases (ltb (length archive) end)) [
        | inl d ↦ rw d tt
        | inr d ↦
            let inside : end ≤ length archive = ground arith in
            let (up, down) = align4-bounds end (omega (arith, inside, short)) in
            rw d (
              sliced-Fits (length archive) start archive pos end _ (omega (arith, sum)) inside
                (λ bytes.
                  on_name-Fits hdr (align4 end) start fs (name_of (from_utf8 (until_nul bytes)))
                    (omega (arith, down, inside)) (omega (arith, sum, up, lo)) file_small))
      ]

  on_magic-Fits :
      (pos start : ℕ) (fs : Ramfs) (magic : List ℕ)
      → start ≤ pos
      → pos + header_size ≤ length archive
      → Fits (length archive) start (on_magic from_utf8 archive pos fs magic)
  on_magic-Fits pos start fs magic lo hi =
      let sum = add64-eq pos header_size (omega (arith, short, hi)) in
      elim (Bool-cases (str_eq magic newc_magic)) [
        | inl c ↦ rw c (
            sliced-Fits (length archive) start archive pos (add64 pos header_size) _
              (omega (arith, sum)) (omega (arith, sum, hi))
              (λ bytes.
                on_header-Fits (add64 pos header_size) start fs (parse bytes)
                  (omega (arith, sum, hi)) (omega (arith, sum, lo)) (parse-below bytes)))
        | inr c ↦ rw c tt
      ]

  round-Fits :
      (pos : ℕ) (fs : Ramfs)
      → pos ≤ length archive + 3
      → Fits (length archive) pos (round from_utf8 archive pos fs)
  unfolding round
  round-Fits pos fs hi =
      let start = align4 pos in
      let (up, down) = align4-bounds pos (omega (arith, short, hi)) in
      let sum = add64-eq start header_size (omega (arith, short, hi, down)) in
      elim (Bool-cases (ltb (length archive) (add64 start header_size))) [
        | inl c ↦ rw c tt
        | inr c ↦
            let inside : add64 start header_size ≤ length archive = ground arith in
            let sum6 = add64-eq start 6 (omega (arith, short, inside, sum)) in
            rw c (
              sliced-Fits (length archive) pos archive start (add64 start 6) _ (omega (arith, sum6))
                (omega (arith, sum6, sum, inside))
                (λ magic. on_magic-Fits start pos fs magic up (omega (arith, sum, inside))))
      ]

  -- The bytes that are left bound the rounds that are left.
  unpack_rounds-IsExtracted :
      (fuel pos : ℕ) (fs : Ramfs)
      → pos ≤ length archive + 3
      → length archive + 3 < pos + fuel * header_size
      → IsExtracted (unpack_rounds from_utf8 archive fuel pos fs)
  unfolding unpack_rounds
  unpack_rounds-IsExtracted zero pos fs hi enough = absurd (omega arith)
  unpack_rounds-IsExtracted (suc fuel) pos fs hi enough =
      go (round from_utf8 archive pos fs) (round-Fits pos fs hi)
        (λ pos' fs' le lo. unpack_rounds-IsExtracted fuel pos' fs' le (omega (arith, enough, lo)))
    where
      go :
          (r : Round)
          → Fits (length archive) pos r
          → ((pos' : ℕ) (fs' : Ramfs)
              → pos' ≤ length archive + 3
              → pos + header_size ≤ pos'
              → IsExtracted (unpack_rounds from_utf8 archive fuel pos' fs'))
          → IsExtracted (elim r [
            | stop fs' ↦ extracted fs'
            | next pos' fs' ↦ unpack_rounds from_utf8 archive fuel pos' fs'
            | panic ↦ panicked
          ])
      go (stop fs') f rest = tt
      go (next pos' fs') f rest = rest pos' fs' f.1 f.0
      go panic f rest = absurd f

  -- For every archive shorter than 2 ^ 63 bytes, whatever its bytes are and however from_utf8
  -- decodes names, extract ends within its rounds with a file system, and none of its slices is
  -- out of bounds.
  pub extract-IsExtracted : (fs : Ramfs) → IsExtracted (extract from_utf8 archive fs)
  unfolding extract
  extract-IsExtracted fs =
      unpack_rounds-IsExtracted (suc (length archive)) 0 fs (omega arith) (omega arith)
