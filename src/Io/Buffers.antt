-- ===== src/Io/Buffers.antt =====
-- User memory: what a load finds after a store, and what `write_to_user` of
-- kernel/src/syscall.rs leaves.
use ferrum_os.Prelude.{
  ℕ, zero, suc, ◌+◌, ◌-◌, ◌/◌, ◌*◌, ◌%◌, ◌≤◌, ◌<◌, ◌≡◌, refl, ◌∙◌, ap, true, false, ◌&&◌, List, [],
  ◌∷◌, ◌==◌, ltb, leb, arith, take, drop, min, length, Bool-cases, inl, inr, page_size,
}
use ferrum_os.Io.{System, load_bytes, store_bytes, put_bytes, write_rounds, write_to_user}

pub load_bytes-same :
    (u v : ℕ → ℕ) (x n : ℕ) → ((a : ℕ) → x ≤ a → u a ≡ v a) → load_bytes u x n ≡ load_bytes v x n
unfolding load_bytes
load_bytes-same u v x zero h = refl
load_bytes-same u v x (suc n) h =
    let here = h x (omega arith) in
    let rest = load_bytes-same u v (x + 1) n (λ a le. h a (omega arith)) in cc

pub store_bytes-outside :
    (u : ℕ → ℕ) (addr : ℕ) (bs : List ℕ) (a : ℕ)
    → leb addr a && ltb a (addr + length bs) ≡ false
    → store_bytes u addr bs a ≡ u a
unfolding store_bytes
store_bytes-outside u addr [] a h = refl
store_bytes-outside u addr (b ∷ bs) a h =
    ground (arith, store_bytes-outside u (addr + 1) bs a (ground arith))

pub load_bytes-store_bytes :
    (u : ℕ → ℕ) (addr : ℕ) (bs : List ℕ) → load_bytes (store_bytes u addr bs) addr (length bs) ≡ bs
unfolding load_bytes store_bytes
load_bytes-store_bytes u addr [] = refl
load_bytes-store_bytes u addr (b ∷ bs) =
    let later =
      load_bytes-same (store_bytes u addr (b ∷ bs)) (store_bytes u (addr + 1) bs) (addr + 1)
        (length bs) (λ a le. ground arith) in
    let rest = later ∙ load_bytes-store_bytes u (addr + 1) bs in
    let here : store_bytes u addr (b ∷ bs) addr ≡ b = ground arith in cc

pub length-load_bytes : (u : ℕ → ℕ) (x n : ℕ) → length (load_bytes u x n) ≡ n
unfolding load_bytes
length-load_bytes u x zero = refl
length-load_bytes u x (suc n) = ap suc (length-load_bytes u (x + 1) n)

pub store_bytes-at :
    (u v : ℕ → ℕ) (addr : ℕ) (bs : List ℕ) (a : ℕ)
    → u a ≡ v a
    → store_bytes u addr bs a ≡ store_bytes v addr bs a
unfolding store_bytes
store_bytes-at u v addr [] a h = h
store_bytes-at u v addr (b ∷ bs) a h = elim (Bool-cases (a == addr)) [
  | inl c ↦ rw c refl
  | inr c ↦ rw c (store_bytes-at u v (addr + 1) bs a h)
]

-- Storing a prefix and then the rest stores the whole.
store_bytes-split :
    (u : ℕ → ℕ) (addr n : ℕ) (bs : List ℕ) (a : ℕ)
    → n ≤ length bs
    → store_bytes (store_bytes u addr (take n bs)) (addr + n) (drop n bs) a
      ≡ store_bytes u addr bs a
unfolding store_bytes
store_bytes-split u addr zero bs a h = ap (λ x. store_bytes u x bs a) (omega arith)
store_bytes-split u addr (suc n) [] a h = absurd (omega arith)
store_bytes-split u addr (suc n) (b ∷ bs) a h = elim (Bool-cases (a == addr)) [
  | inl c ↦ rw c (
      store_bytes-outside (store_bytes u addr (b ∷ take n bs)) (addr + suc n) (drop n bs) a
        (ground arith)
      ∙ ground arith)
  | inr c ↦
      let inner : store_bytes u addr (b ∷ take n bs) a ≡ store_bytes u (addr + 1) (take n bs) a =
        ground arith in
      let moved : addr + suc n ≡ addr + 1 + n = omega arith in
      rw c (
        store_bytes-at _ _ (addr + suc n) (drop n bs) a inner
        ∙ ap (λ x. store_bytes (store_bytes u (addr + 1) (take n bs)) x (drop n bs) a) moved
        ∙ store_bytes-split u (addr + 1) n bs a (omega arith))
]

length-drop : (n : ℕ) (bs : List ℕ) → length (drop n bs) ≡ length bs - n
length-drop zero bs = omega arith
length-drop (suc n) [] = omega arith
length-drop (suc n) (b ∷ bs) = omega (arith, length-drop n bs)

-- Every byte of the range lies on a page that is mapped.
abbrev pub IsMapped : System → ℕ → ℕ → Type 0
IsMapped s vaddr n =
    (a : ℕ) → vaddr ≤ a → a < vaddr + n → s.mapped (a / page_size * page_size) ≡ true

write_rounds-eq-store :
    (fuel : ℕ) (s : System) (vaddr : ℕ) (bs : List ℕ)
    → length bs ≤ fuel
    → IsMapped s vaddr (length bs)
    → ((write_rounds fuel s vaddr bs).0 ≡ true)
      × ((a : ℕ) → (write_rounds fuel s vaddr bs).1.user a ≡ store_bytes s.user vaddr bs a)
unfolding write_rounds
write_rounds-eq-store fuel s vaddr [] h m = (refl, λ a. refl)
write_rounds-eq-store zero s vaddr (b ∷ bs) h m = absurd (omega arith)
write_rounds-eq-store (suc fuel) s vaddr (b ∷ bs) h m =
    let here = m vaddr (omega arith) (omega arith) in
    let avail = min (page_size - vaddr % page_size) (length (b ∷ bs)) in
    let (done, rest) =
      write_rounds-eq-store fuel (put_bytes s vaddr (take avail (b ∷ bs))) (vaddr + avail)
        (drop avail (b ∷ bs)) (omega (arith, length-drop avail (b ∷ bs), h))
        (λ a le lt. m a (omega arith) (omega (arith, length-drop avail (b ∷ bs), lt))) in
    rw here (done, λ a. rest a ∙ store_bytes-split s.user vaddr avail (b ∷ bs) a (omega arith))

pub write_to_user-eq-store_bytes :
    (s : System) (vaddr : ℕ) (bytes : List ℕ)
    → IsMapped s vaddr (length bytes)
    → ((write_to_user s vaddr bytes).0 ≡ true)
      × ((a : ℕ) → (write_to_user s vaddr bytes).1.user a ≡ store_bytes s.user vaddr bytes a)
unfolding write_to_user
write_to_user-eq-store_bytes s vaddr bytes m =
    write_rounds-eq-store (length bytes) s vaddr bytes (omega arith) m

write_rounds-frame :
    (fuel : ℕ) (s : System) (vaddr : ℕ) (bs : List ℕ)
    → (write_rounds fuel s vaddr bs).1 ≡ record s { user = (write_rounds fuel s vaddr bs).1.user }
unfolding write_rounds
write_rounds-frame fuel s vaddr [] = refl
write_rounds-frame zero s vaddr (b ∷ bs) = refl
write_rounds-frame (suc fuel) s vaddr (b ∷ bs) =
    let avail = min (page_size - vaddr % page_size) (length (b ∷ bs)) in
    let rest =
      write_rounds-frame fuel (put_bytes s vaddr (take avail (b ∷ bs))) (vaddr + avail)
        (drop avail (b ∷ bs)) in
    elim (Bool-cases (s.mapped (vaddr / page_size * page_size))) [
      | inl c ↦ rw c rest
      | inr c ↦ rw c refl
    ]

-- Nothing but user memory changes.
pub write_to_user-frame :
    (s : System) (vaddr : ℕ) (bytes : List ℕ)
    → (write_to_user s vaddr bytes).1 ≡ record s { user = (write_to_user s vaddr bytes).1.user }
unfolding write_to_user
write_to_user-frame s vaddr bytes = write_rounds-frame (length bytes) s vaddr bytes
