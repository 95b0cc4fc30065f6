-- ===== src/Vma/Mmap.antt =====
-- `mmap` of kernel/src/vma.rs without an address hint, as `syscall_mmap` calls it.
use ferrum_os.Prelude.{
  ℕ, ◌+◌, ◌%◌, ◌≤◌, ◌<◌, ◌≡◌, refl, ◌&&◌, Option, none, some, List, arith, Result, ok, err,
  no_free_area, if◌then◌else◌, leb, ltb, ◌>>=◌, page_size, page_up, add64, u64_mod,
}
use ferrum_os.Vma.{Vma, VmaFlags, VmaKind, contains, add_vma}
use ferrum_os.Vma.Area.{mmap_zone_start, mmap_zone_end, find_free_area, mmap_at, mmap, new_vma}
use ferrum_os.Vma.Cover.{attr_at, IsSorted}
use ferrum_os.Vma.Add.{Added, add_vma-Added}
use ferrum_os.Vma.Gaps.{
  IsFree, IsAligned, IsLowestGap, find_free_area-IsLowestGap, find_gap_aligned,
}

-- What `mmap` owes its caller: a free range of the zone, of the size rounded up to pages, is covered
-- with the asked rights, and nothing else changes; an error means that there is no such range.
abbrev pub Mapped : List Vma → ℕ → VmaFlags → VmaKind → Result (ℕ × List Vma) → Type 0
Mapped vs size f k (ok (start, t)) =
    (mmap_zone_start ≤ start)
    × (start + page_up size ≤ mmap_zone_end)
    × IsFree vs start (page_up size)
    × IsSorted 0 t
    × ((a : ℕ)
        → attr_at t a
          ≡ (if leb start a && ltb a (start + page_up size) then some (f, k) else attr_at vs a))
Mapped vs size f k (err e) =
    (e ≡ no_free_area)
    × ((d : ℕ)
        → mmap_zone_start ≤ d
        → d + page_up size ≤ mmap_zone_end
        → ¬ IsFree vs d (page_up size))

place_found :
    (vs : List Vma) (size start end : ℕ) (f : VmaFlags) (k : VmaKind) (r : Result (List Vma))
    → end ≡ start + page_up size
    → mmap_zone_start ≤ start
    → start + page_up size ≤ mmap_zone_end
    → IsFree vs start (page_up size)
    → Added 0 vs (new_vma start end f k) r
    → Mapped vs size f k (r >>= λ t. ok (start, t))
unfolding contains
place_found vs size start end f k (ok t) e l h free (s, same, out, _) =
    (l, h, free, s, (λ a. ground (arith, same a)))
place_found vs size start end f k (err e') e l h free (_, a, c, i) = absurd (ground (arith, free a))

mmap_at-Mapped :
    (vs : List Vma) (size : ℕ) (f : VmaFlags) (k : VmaKind) (r : Option ℕ)
    → 0 < size
    → size + page_size ≤ u64_mod
    → IsSorted 0 vs
    → ((c : ℕ) → r ≡ some c → c % page_size ≡ 0)
    → IsLowestGap vs (page_up size) r
    → Mapped vs size f k (mmap_at vs size f k r)
mmap_at-Mapped vs size f k none p o s al g = (refl, g)
mmap_at-Mapped vs size f k (some c) p o s al (low, high, free, _) =
    let at_page = al c refl in
    let end = page_up (add64 c size) in
    let e : end ≡ c + page_up size = omega arith in
    place_found vs size c end f k (add_vma vs (new_vma c end f k)) e low high free
      (add_vma-Added 0 vs (new_vma c end f k) (omega arith) (omega arith) s)

-- On sorted, page-aligned areas a request of positive size, less than a page below the end of the
-- 64-bit range, without an address is mapped at a free range of the mmap zone, of the size rounded
-- up to pages, with the asked rights and kind and no change elsewhere; an error means that the
-- zone has no such free range.
pub mmap-Mapped :
    (vs : List Vma) (size : ℕ) (f : VmaFlags) (k : VmaKind)
    → 0 < size
    → size + page_size ≤ u64_mod
    → IsSorted 0 vs
    → IsAligned vs
    → Mapped vs size f k (mmap vs 0 size f k)
unfolding mmap
mmap-Mapped vs size f k p o s al =
    mmap_at-Mapped vs size f k (find_free_area vs (page_up size)) p o s
      (λ c e.
        unfold find_free_area in find_gap_aligned (page_up size) mmap_zone_start vs c refl al e)
      (find_free_area-IsLowestGap vs (page_up size) (omega arith) s)
