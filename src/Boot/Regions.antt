-- ===== src/Boot/Regions.antt =====
-- `add_region_excluding` of kernel/src/main.rs: the free memory of a region, without what is in use.
use ferrum_os.Prelude.{
  ℕ, ◌-◌, ◌*◌, ◌==◌, not, add64, page_size, Bool, true, false, ◌&&◌, Option, none, some, List, [],
  ◌∷◌, ◌++◌, ltb, leb, if◌then◌else◌, length,
}
use ferrum_os.Machine.{M, pure, panic, ◌>>◌}
use ferrum_os.Buddy

-- the range from the first address up to the second
abbrev pub Range : Type 0
Range = ℕ × ℕ

abbrev pub range_if : Bool → Range → List Range
range_if true r = r ∷ []
range_if false r = []

-- What is left of one range: the parts before and behind the excluded one, where they meet.
unfoldable pub cut_range : Range → Range → List Range
cut_range (ex_s, ex_e) (r_s, r_e) =
    if ltb r_s ex_e && ltb ex_s r_e
    then range_if (ltb r_s ex_s) (r_s, ex_s) ++ range_if (ltb ex_e r_e) (ex_e, r_e)
    else (r_s, r_e) ∷ []

unfoldable pub cut_ranges : Range → List Range → List Range
unfolding cut_range
cut_ranges ex [] = []
cut_ranges ex (r ∷ rs) = cut_range ex r ++ cut_ranges ex rs

-- The arrays have eight places; a ninth range is an index out of bounds.
abbrev pub capacity : ℕ
capacity = 8

unfoldable pub remaining : List Range → List Range → Option (List Range)
unfolding cut_ranges
remaining [] rs = some rs
remaining (ex ∷ excludes) rs =
    let next = cut_ranges ex rs in
    let rest = remaining excludes next in if leb (length next) capacity then rest else none

unfoldable pub add_ranges : List Range → M (Unit {0})
unfolding Buddy.add_region
add_ranges [] = pure tt
add_ranges ((s, e) ∷ rs) = do if ltb s e then Buddy.add_region s (e - s) else pure tt; add_ranges rs

abbrev pub add_remaining : Option (List Range) → M (Unit {0})
add_remaining none = panic
add_remaining (some rs) = add_ranges rs

unfoldable pub add_region_excluding : ℕ → ℕ → List Range → M (Unit {0})
unfolding remaining add_ranges
add_region_excluding start end excludes = add_remaining (remaining excludes ((start, end) ∷ []))

-- The types of the boot loader's memory map that `setup_paging` tells apart, and a row of the map.
pub data MemoryType : Type 0 where
  conventional boot_services_code boot_services_data other_type : MemoryType

pub record MemoryDescriptor : Type 0 where
  pub memory_type : MemoryType
  pub phys_start : ℕ
  pub page_count : ℕ

abbrev pub is_usable : MemoryType → Bool
is_usable conventional = true
is_usable boot_services_code = true
is_usable boot_services_data = true
is_usable other_type = false

-- The loop of `setup_paging` that hands free memory to the allocator: what is excluded is the boot
-- stack, the tables of the early allocator, and the kernel image. A region at address 0 is left out.
unfoldable pub register_regions : List MemoryDescriptor → List Range → M (Unit {0})
unfolding add_region_excluding
register_regions [] excludes = pure tt
register_regions (d ∷ ds) excludes = do
  let end = add64 d.phys_start (d.page_count * page_size)
  if is_usable d.memory_type && not (d.phys_start == 0)
      then add_region_excluding d.phys_start end excludes
      else pure tt
  register_regions ds excludes
