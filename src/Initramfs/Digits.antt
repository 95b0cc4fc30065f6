-- ===== src/Initramfs/Digits.antt =====
-- The numbers of a header in kernel/src/initramfs.rs: eight hexadecimal digits.
use mathlib.Core.Path.{subst}
use ferrum_os.Prelude.{
  ℕ, suc, ◌+◌, ◌*◌, ◌^◌, ◌<◌, ◌≡◌, ◌&&◌, Option, none, some, List, [], ◌∷◌, ltb, leb, length,
  length-take, take, arith, Bool-cases, inl, inr,
}
use ferrum_os.Initramfs.{
  hex_digit, shifted, parse_digits, parse_hex8, Header, header_of, field, parse,
}

-- What a parsed number is bounded by: 16 to the number of its digits.
abbrev pub IsBelow : ℕ → Option ℕ → Type 0
IsBelow m none = Unit {0}
IsBelow m (some v) = v < m

hex_digit-lt : (b : ℕ) → IsBelow 16 (hex_digit b)
hex_digit-lt b = elim (Bool-cases (leb 48 b && leb b 57)) [
  | inl c ↦ rw c (ground arith)
  | inr c ↦ rw c (elim (Bool-cases (leb 97 b && leb b 102)) [
    | inl d ↦ rw d (ground arith)
    | inr d ↦
        rw d (elim (Bool-cases (leb 65 b && leb b 70)) [
          | inl e ↦ rw e (ground arith)
          | inr e ↦ rw e tt
        ])
  ])
]

shifted-lt :
    (k : ℕ) (bs : List ℕ) (val : ℕ) (r : Option ℕ)
    → val < 16 ^ k
    → IsBelow 16 r
    → ((v : ℕ) → v < 16 ^ suc k → IsBelow (16 ^ (suc k + length bs)) (parse_digits v bs))
    → IsBelow
        (16 ^ (suc k + length bs))
        (elim (shifted val r) [ none ↦ none | some v ↦ parse_digits v bs ])
shifted-lt k bs val none h d rest = tt
shifted-lt k bs val (some digit) h d rest = rest (val * 16 + digit) (omega (arith, h, d))

-- Each digit makes the bound sixteen times as large.
parse_digits-lt :
    (val k : ℕ) (bs : List ℕ) → val < 16 ^ k → IsBelow (16 ^ (k + length bs)) (parse_digits val bs)
unfolding parse_digits
parse_digits-lt val k [] h = let same : k + 0 ≡ k = omega arith in rw same h
parse_digits-lt val k (b ∷ bs) h =
    let more : k + suc (length bs) ≡ suc k + length bs = omega arith in
    rw more (
      shifted-lt k bs val (hex_digit b) h (hex_digit-lt b)
        (λ v lt. parse_digits-lt v (suc k) bs lt))

pub parse_hex8-lt : (s : List ℕ) → IsBelow (2 ^ 32) (parse_hex8 s)
unfolding parse_hex8
parse_hex8-lt s = elim (Bool-cases (ltb (length s) 8)) [
  | inl c ↦ rw c tt
  | inr c ↦
      let eight : 0 + length (take 8 s) ≡ 8 = omega (arith, length-take 8 s (ground arith)) in
      let bound : IsBelow (16 ^ (0 + length (take 8 s))) (parse_digits 0 (take 8 s)) =
        parse_digits-lt 0 0 (take 8 s) (omega arith) in
      rw c (subst (λ n. IsBelow (16 ^ n) (parse_digits 0 (take 8 s))) eight bound)
]

header_of-below :
    (mode filesize namesize : Option ℕ) (hdr : Header)
    → IsBelow (2 ^ 32) filesize
    → IsBelow (2 ^ 32) namesize
    → header_of mode filesize namesize ≡ some hdr
    → (hdr.filesize < 2 ^ 32) × (hdr.namesize < 2 ^ 32)
header_of-below (some m) (some f) (some n) hdr hf hn e =
    let same : record { mode = m; namesize = n; filesize = f } ≡ hdr = ground arith in
    (rw (← same) hf, rw (← same) hn)
header_of-below none f n hdr hf hn e = absurd (ground arith)
header_of-below (some m) none n hdr hf hn e = absurd (ground arith)
header_of-below (some m) (some f) none hdr hf hn e = absurd (ground arith)

pub parse-below :
    (bytes : List ℕ) (hdr : Header)
    → parse bytes ≡ some hdr
    → (hdr.filesize < 2 ^ 32) × (hdr.namesize < 2 ^ 32)
unfolding parse
parse-below bytes hdr e =
    header_of-below (parse_hex8 (field bytes 14)) (parse_hex8 (field bytes 54))
      (parse_hex8 (field bytes 94)) hdr (parse_hex8-lt (field bytes 54))
      (parse_hex8-lt (field bytes 94)) e
