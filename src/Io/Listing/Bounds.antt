-- ===== src/Io/Listing/Bounds.antt =====
-- getdents64 of kernel/src/syscall.rs: what it writes, and how far it gets.
use ferrum_os.Prelude.{
  ℕ, zero, suc, ◌+◌, ◌/◌, ◌≤◌, ◌<◌, ◌≡◌, refl, ◌∙◌, false, ◌&&◌, some, List, [], ◌∷◌, ltb, leb,
  length, length-append, get_elem?, le_bytes, arith, Bool-cases, ◌⊎◌, inl, inr, ap, ◌-◌,
}
use ferrum_os.Paths.{Str}
use ferrum_os.Io.{store_bytes}
use ferrum_os.Io.Buffers.{store_bytes-outside}
use ferrum_os.Io.Names.{as_bytes}
use ferrum_os.Io.Listing.{reclen, dirent, Listed, list_entries}

length-le_bytes : (n w : ℕ) → length (le_bytes n w) ≡ n
unfolding le_bytes
length-le_bytes zero w = refl
length-le_bytes (suc n) w = omega (arith, length-le_bytes n (w / 256))

-- A record fits in its length.
length-dirent : (i : ℕ) (bytes : List ℕ) → length (dirent i bytes) ≡ 20 + length bytes
unfolding dirent
length-dirent i bytes = omega (arith, length-append bytes (0 ∷ []))

-- What the loop promises, from index `i` and `out_off` on: it uses no more than `count` bytes,
-- changes no byte outside the buffer, and stops behind the last name or at one that does not fit.
abbrev pub IsListed : ℕ → ℕ → ℕ → List Str → (ℕ → ℕ) → Listed → Type 0
IsListed buf count i names user l =
    (l.out_off ≤ count)
    × (i ≤ l.next_idx)
    × ((a : ℕ) → leb buf a && ltb a (buf + count) ≡ false → l.user a ≡ user a)
    × ((l.next_idx ≡ i + length names)
        ⊎ ((name : Str) × ((get_elem? names (l.next_idx - i) ≡ some name)
              × (count < l.out_off + reclen (as_bytes name)))))

later_stop :
    (names : List Str) (name : Str) (i count next out : ℕ)
    → i + 1 ≤ next
    → (next ≡ i + 1 + length names)
      ⊎ ((v : Str) × ((get_elem? names (next - (i + 1)) ≡ some v)
            × (count < out + reclen (as_bytes v))))
    → (next ≡ i + length (name ∷ names))
      ⊎ ((v : Str) × ((get_elem? (name ∷ names) (next - i) ≡ some v)
            × (count < out + reclen (as_bytes v))))
later_stop names name i count next out le (inl e) = inl (omega (arith, e))
later_stop names name i count next out le (inr (v, (at, big))) =
    let moved : next - i ≡ suc (next - (i + 1)) = omega (arith, le) in
    inr (v, (ap (get_elem? (name ∷ names)) moved ∙ at, big))

-- The loop of getdents64 uses no more bytes of the buffer than count, changes no byte outside the
-- buffer, and stops behind the last name or at a name whose record does not fit.
pub list_entries-IsListed :
    (buf count i : ℕ) (names : List Str) (user : ℕ → ℕ) (out_off : ℕ)
    → out_off ≤ count
    → IsListed buf count i names user (list_entries buf count i names user out_off)
unfolding list_entries
list_entries-IsListed buf count i [] user out_off h =
    (h, omega arith, λ a out. refl, inl (omega arith))
list_entries-IsListed buf count i (name ∷ names) user out_off h =
    let bytes = as_bytes name in
    elim (Bool-cases (ltb count (out_off + reclen bytes))) [
      | inl c ↦
          let here : i - i ≡ 0 = omega arith in
          let first : get_elem? (name ∷ names) (i - i) ≡ some name =
            ap (get_elem? (name ∷ names)) here in
          rw c (h, omega arith, λ a out. refl, inr (name, (first, ground arith)))
      | inr c ↦
          let (below, later, kept, stop) =
            list_entries-IsListed buf count (i + 1) names
              (store_bytes user (buf + out_off) (dirent i bytes)) (out_off + reclen bytes)
              (ground arith) in
          let room : out_off + reclen bytes ≤ count = ground arith in
          let fits : out_off + length (dirent i bytes) ≤ count =
            omega (arith, length-dirent i bytes, room) in
          rw c (
            below,
            omega arith,
            (λ a out.
                kept a out
                ∙ store_bytes-outside user (buf + out_off) (dirent i bytes) a
                    (ground (arith, fits, out))),
            later_stop names name i count
                (list_entries buf count (i + 1) names
                  (store_bytes user (buf + out_off) (dirent i bytes))
                  (out_off + reclen bytes)).next_idx
                (list_entries buf count (i + 1) names
                  (store_bytes user (buf + out_off) (dirent i bytes))
                  (out_off + reclen bytes)).out_off
                later stop,
          )
    ]
