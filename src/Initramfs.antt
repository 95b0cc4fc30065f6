-- ===== src/Initramfs.antt =====
-- kernel/src/initramfs.rs: a cpio archive in the newc format, unpacked into the RAM file system.
-- A slice of the archive out of its bounds panics; `core::str::from_utf8` is a parameter. Messages
-- on the serial line are left out, and so is a symbolic link, for which the RAM file system does
-- nothing.
pub mod Digits
pub mod Bounds
use ferrum_os.Prelude.{
  ℕ, zero, suc, ◌+◌, ◌-◌, ◌*◌, ◌/◌, ◌%◌, Bool, true, false, ◌&&◌, ◌||◌, not, Option, none, some,
  List, [], ◌∷◌, ◌++◌, ltb, leb, ◌==◌, if◌then◌else◌, length, take, drop, add64,
}
use ferrum_os.Paths.{Str, slash}
use ferrum_os.Ramfs.{Ramfs, str_eq, strip_prefix, write_file, mkdir}

-- 070701
abbrev pub newc_magic : List ℕ
newc_magic = 48 ∷ 55 ∷ 48 ∷ 55 ∷ 48 ∷ 49 ∷ []

-- TRAILER!!!
abbrev pub trailer : Str
trailer = 84 ∷ 82 ∷ 65 ∷ 73 ∷ 76 ∷ 69 ∷ 82 ∷ 33 ∷ 33 ∷ 33 ∷ []

abbrev pub header_size : ℕ
header_size = 110

abbrev pub align4 : ℕ → ℕ
align4 x = add64 x 3 / 4 * 4

abbrev pub hex_digit : ℕ → Option ℕ
hex_digit b =
    if leb 48 b && leb b 57
    then some (b - 48)
    else if leb 97 b && leb b 102
    then some (b - 97 + 10)
    else if leb 65 b && leb b 70
    then some (b - 65 + 10)
    else none

abbrev pub shifted : ℕ → Option ℕ → Option ℕ
shifted val none = none
shifted val (some digit) = some (val * 16 + digit)

unfoldable pub parse_digits : ℕ → List ℕ → Option ℕ
parse_digits val [] = some val
parse_digits val (b ∷ bs) = elim (shifted val (hex_digit b)) [
  | none ↦ none
  | some v ↦ parse_digits v bs
]

unfoldable pub parse_hex8 : List ℕ → Option ℕ
unfolding parse_digits
parse_hex8 s = if ltb (length s) 8 then none else parse_digits 0 (take 8 s)

pub record Header : Type 0 where
  pub mode : ℕ
  pub namesize : ℕ
  pub filesize : ℕ

abbrev pub header_of : Option ℕ → Option ℕ → Option ℕ → Option Header
header_of (some mode) (some filesize) (some namesize) =
    some (record { mode = mode; namesize = namesize; filesize = filesize })
header_of _ _ _ = none

-- `&data[at..at + 8]` of the 110 bytes of a header
abbrev pub field : List ℕ → ℕ → List ℕ
field archive at = take 8 (drop at archive)

unfoldable pub parse : List ℕ → Option Header
unfolding parse_hex8
parse archive =
    header_of (parse_hex8 (field archive 14)) (parse_hex8 (field archive 54))
      (parse_hex8 (field archive 94))

-- the bytes before the first zero byte
abbrev pub until_nul : List ℕ → List ℕ
until_nul [] = []
until_nul (b ∷ bs) = if b == 0 then [] else b ∷ until_nul bs

-- <invalid>
abbrev pub name_of : Option Str → Str
name_of (some name) = name
name_of none = 60 ∷ 105 ∷ 110 ∷ 118 ∷ 97 ∷ 108 ∷ 105 ∷ 100 ∷ 62 ∷ []

abbrev pub after_prefix : Str → Option Str → Str
after_prefix name none = slash ∷ name
after_prefix name (some stripped) = slash ∷ stripped

abbrev pub normalize_path : Str → Str
normalize_path name = after_prefix name (strip_prefix (46 ∷ 47 ∷ []) name)

abbrev pub unpack : Str → ℕ → List ℕ → Ramfs → Ramfs
unpack name mode file_data fs =
    let file_type = mode / 4096 % 16 in
    if str_eq name (46 ∷ [])
    then fs
    else if file_type == 8
    then write_file fs (normalize_path name) file_data
    else if file_type == 4
    then mkdir fs (normalize_path name)
    else fs

-- How a round of the loop ends.
pub data Round : Type 0 where
  stop : Ramfs → Round
  next : ℕ → Ramfs → Round
  panic : Round

abbrev pub sliced : List ℕ → ℕ → ℕ → (List ℕ → Round) → Round
sliced archive start end body =
    if leb start end && leb end (length archive)
    then body (take (end - start) (drop start archive))
    else panic

abbrev pub on_data : Str → Header → ℕ → Ramfs → List ℕ → Round
on_data name hdr end fs file_data = next (align4 end) (unpack name hdr.mode file_data fs)

abbrev pub on_name : List ℕ → Header → ℕ → Ramfs → Str → Round
on_name archive hdr pos fs name =
    let end = add64 pos hdr.filesize in
    if str_eq name trailer
    then stop fs
    else if ltb (length archive) end
    then stop fs
    else sliced archive pos end (on_data name hdr end fs)

abbrev pub on_header : (List ℕ → Option Str) → List ℕ → ℕ → Ramfs → Option Header → Round
on_header from_utf8 archive pos fs none = stop fs
on_header from_utf8 archive pos fs (some hdr) =
    let end = add64 pos hdr.namesize in
    if ltb (length archive) end
    then stop fs
    else sliced archive pos end (λ name_bytes.
      on_name archive hdr (align4 end) fs (name_of (from_utf8 (until_nul name_bytes))))

abbrev pub on_magic : (List ℕ → Option Str) → List ℕ → ℕ → Ramfs → List ℕ → Round
on_magic from_utf8 archive pos fs magic =
    if str_eq magic newc_magic
    then sliced archive pos (add64 pos header_size)
        (λ bytes. on_header from_utf8 archive (add64 pos header_size) fs (parse bytes))
    else stop fs

unfoldable pub round : (List ℕ → Option Str) → List ℕ → ℕ → Ramfs → Round
unfolding parse write_file mkdir
round from_utf8 archive pos fs =
    let start = align4 pos in
    if ltb (length archive) (add64 start header_size)
    then stop fs
    else sliced archive start (add64 start 6) (on_magic from_utf8 archive start fs)

pub data Extracted : Type 0 where
  extracted : Ramfs → Extracted
  panicked out_of_fuel : Extracted

unfoldable pub unpack_rounds : (List ℕ → Option Str) → List ℕ → ℕ → ℕ → Ramfs → Extracted
unfolding round
unpack_rounds from_utf8 archive zero pos fs = out_of_fuel
unpack_rounds from_utf8 archive (suc fuel) pos fs = elim (round from_utf8 archive pos fs) [
  | stop fs' ↦ extracted fs'
  | next pos' fs' ↦ unpack_rounds from_utf8 archive fuel pos' fs'
  | panic ↦ panicked
]

-- One round more than there are bytes.
unfoldable pub extract : (List ℕ → Option Str) → List ℕ → Ramfs → Extracted
unfolding unpack_rounds
extract from_utf8 archive fs = unpack_rounds from_utf8 archive (suc (length archive)) 0 fs
