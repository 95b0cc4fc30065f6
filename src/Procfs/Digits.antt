-- ===== src/Procfs/Digits.antt =====
-- The numbers in the texts of kernel/src/fs/procfs.rs can be read back.
use ferrum_os.Prelude.{
  ℕ, zero, suc, ◌+◌, ◌-◌, ◌*◌, ◌/◌, ◌%◌, ◌^◌, ◌<◌, ◌≡◌, refl, ◌∙◌, [], ◌∷◌, ◌++◌, ltb,
  if◌then◌else◌, arith,
}
use ferrum_os.Paths.{Str}
use ferrum_os.Procfs.{hex_char, hex_digits}

-- The value of a hexadecimal digit, and of digits behind a number.
abbrev hex_value : ℕ → ℕ
hex_value c = if ltb c 58 then c - 48 else c - 87

abbrev read_hex : ℕ → Str → ℕ
read_hex n [] = n
read_hex n (c ∷ cs) = read_hex (n * 16 + hex_value c) cs

read_hex-append :
    (n : ℕ) (cs : Str) (c : ℕ) → read_hex n (cs ++ c ∷ []) ≡ read_hex n cs * 16 + hex_value c
read_hex-append n [] c = refl
read_hex-append n (d ∷ cs) c = read_hex-append (n * 16 + hex_value d) cs c

hex_value-hex_char : (d : ℕ) → d < 16 → hex_value (hex_char d) ≡ d
hex_value-hex_char d h = ground arith

-- The digits of a number below 16 ^ n spell it.
pub read_hex-hex_digits : (n w : ℕ) → w < 16 ^ n → read_hex 0 (hex_digits n w) ≡ w
unfolding hex_digits
read_hex-hex_digits zero w h = omega (arith, h)
read_hex-hex_digits (suc n) w h =
    read_hex-append 0 (hex_digits n (w / 16)) (hex_char (w % 16))
    ∙ omega (
      arith,
      read_hex-hex_digits n (w / 16) (omega (arith, h)),
      hex_value-hex_char (w % 16) (omega arith),
    )
