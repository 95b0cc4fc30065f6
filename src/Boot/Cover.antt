-- ===== src/Boot/Cover.antt =====
-- `add_region_excluding` of kernel/src/main.rs: which addresses the page allocator gets.
use ferrum_os.Prelude.{
  ℕ, ◌*◌, ◌≤◌, ◌≡◌, refl, Bool, true, false, not, ◌&&◌, ◌||◌, Option, none, some, List, [], ◌∷◌,
  ◌++◌, arith, ltb, leb, length, length-append,
}
use ferrum_os.Boot.Regions.{Range, cut_range, cut_ranges, capacity, remaining}

abbrev pub within : ℕ → Range → Bool
within a (s, e) = leb s a && ltb a e

-- whether an address lies in one of the ranges
unfoldable pub covered : ℕ → List Range → Bool
covered a [] = false
covered a (r ∷ rs) = within a r || covered a rs

covered-append :
    (a : ℕ) (rs ts : List Range) → covered a (rs ++ ts) ≡ (covered a rs || covered a ts)
unfolding covered
covered-append a [] ts = refl
covered-append a (r ∷ rs) ts = ground (arith, covered-append a rs ts)

covered-cut_range :
    (a : ℕ) (ex r : Range) → covered a (cut_range ex r) ≡ (within a r && not (within a ex))
unfolding covered cut_range
covered-cut_range a (ex_s, ex_e) (r_s, r_e) = ground arith

covered-cut_ranges :
    (a : ℕ) (ex : Range) (rs : List Range)
    → covered a (cut_ranges ex rs) ≡ (covered a rs && not (within a ex))
unfolding covered cut_ranges
covered-cut_ranges a ex [] = refl
covered-cut_ranges a ex (r ∷ rs) = ground (
  arith,
  covered-append a (cut_range ex r) (cut_ranges ex rs),
  covered-cut_range a ex r,
  covered-cut_ranges a ex rs,
)

length-cut_range : (ex r : Range) → length (cut_range ex r) ≤ 2
unfolding cut_range
length-cut_range (ex_s, ex_e) (r_s, r_e) = ground arith

length-cut_ranges : (ex : Range) (rs : List Range) → length (cut_ranges ex rs) ≤ 2 * length rs
unfolding cut_ranges
length-cut_ranges ex [] = omega arith
length-cut_ranges ex (r ∷ rs) = omega (
  arith,
  length-append (cut_range ex r) (cut_ranges ex rs),
  length-cut_range ex r,
  length-cut_ranges ex rs,
)

-- What is left covers what the ranges covered, less what is excluded.
abbrev pub Leaves : List Range → List Range → Option (List Range) → Type 0
Leaves excludes rs none = ⊥
Leaves excludes rs (some ts) =
    (length ts ≤ capacity) × ((a : ℕ) → covered a ts ≡ (covered a rs && not (covered a excludes)))

step-Leaves :
    (x : Range) (xs rs : List Range) (r : Option (List Range))
    → Leaves xs (cut_ranges x rs) r
    → Leaves (x ∷ xs) rs r
unfolding covered
step-Leaves x xs rs none h = h
step-Leaves x xs rs (some ts) (few, cover) =
    (few, λ a. ground (arith, cover a, covered-cut_ranges a x rs))

remaining-step :
    (x : Range) (xs rs : List Range)
    → 2 * length rs ≤ capacity
    → Leaves xs (cut_ranges x rs) (remaining xs (cut_ranges x rs))
    → Leaves (x ∷ xs) rs (remaining (x ∷ xs) rs)
unfolding remaining
remaining-step x xs rs few h =
    let fits : leb (length (cut_ranges x rs)) capacity ≡ true =
      ground (arith, length-cut_ranges x rs) in
    rw fits (step-Leaves x xs rs (remaining xs (cut_ranges x rs)) h)

remaining-none : (rs : List Range) → length rs ≤ capacity → Leaves [] rs (remaining [] rs)
unfolding remaining covered
remaining-none rs few = (few, λ a. ground arith)

-- For a region and three excluded ranges, whatever they are, the ranges that the loop of cuts in
-- add_region_excluding ends with fit its arrays and together cover an address exactly if the
-- region covers it and none of the excluded ranges does.
pub remaining-Leaves :
    (region x y z : Range)
    → Leaves (x ∷ y ∷ z ∷ []) (region ∷ []) (remaining (x ∷ y ∷ z ∷ []) (region ∷ []))
remaining-Leaves region x y z =
    let r1 = cut_ranges x (region ∷ []) in
    let r2 = cut_ranges y r1 in
    let r3 = cut_ranges z r2 in
    let one = length-cut_ranges x (region ∷ []) in
    let two = length-cut_ranges y r1 in
    let three = length-cut_ranges z r2 in
    remaining-step x (y ∷ z ∷ []) (region ∷ []) (omega arith) (
      remaining-step y (z ∷ []) r1 (omega (arith, one)) (
        remaining-step z [] r2 (omega (arith, one, two))
          (remaining-none r3 (omega (arith, one, two, three)))))
