-- ===== src/Spawn/Copy.antt =====
-- The pages of a new process: the copies that `Process::fork` of kernel/src/process.rs makes, and
-- `map_kernel_image` of kernel/src/paging.rs.
use ferrum_os.Prelude.{
  ℕ, zero, suc, ◌+◌, ◌-◌, true, false, ◌&&◌, Option, none, some, List, [], ◌∷◌, ltb, leb, ◌==◌,
  if◌then◌else◌, Result, ok, err, page_size, page_down, page_up, add64,
}
use ferrum_os.Machine.{M, pure, panic, ◌>>=◌, ◌>>◌}
use ferrum_os.PageOwners.{track}
use ferrum_os.Paging.{alloc_page, map_4kb, expect_mapped, translate}
use ferrum_os.Vma.{Vma, add_vma}
use ferrum_os.Vma.Space.{to_page_flags, owner_tag, rounds}

-- `copy_nonoverlapping(src, dst, 4096)`
abbrev pub copy_page : ℕ → ℕ → M (Unit {0})
copy_page src dst m = some (
  tt,
  record m {
    mem = λ a. if leb dst a && ltb a (dst + page_size) then m.mem (src + (a - dst)) else m.mem a;
  },
)

-- `expect` on a result of the page table, and on a new page
abbrev pub expect : {A : Type 0} → Option A → M A
expect none = panic
expect (some a) = pure a

-- A mapped page of the parent is copied to a new page of the child.
abbrev pub copy_mapped : Vma → ℕ → ℕ → ℕ → Option ℕ → M (Unit {0})
copy_mapped vma child_pml4 new_pid addr none = pure tt
copy_mapped vma child_pml4 new_pid addr (some src) = do
  found ← alloc_page
  dst ← expect found
  track dst 0 (owner_tag vma.kind) new_pid
  expect_mapped src
  if src == dst then panic else copy_page src dst
  mapped ← map_4kb child_pml4 addr dst (to_page_flags vma.flags)
  expect mapped

unfoldable pub copy_area : ℕ → Vma → ℕ → ℕ → ℕ → ℕ → M (Unit {0})
unfolding translate alloc_page track map_4kb
copy_area zero vma parent_pml4 child_pml4 new_pid addr m = some (tt, m)
copy_area (suc fuel) vma parent_pml4 child_pml4 new_pid addr m = elim (ltb addr vma.end) [
  | false ↦ some (tt, m)
  | true ↦
      (do
        src ← translate parent_pml4 addr
        copy_mapped vma child_pml4 new_pid addr src
        copy_area fuel vma parent_pml4 child_pml4 new_pid (addr + page_size))
        m
]

-- `add_vma(vma).ok()?`
abbrev pub on_added : Result (List Vma) → (List Vma → M (Option (List Vma))) → M (Option (List Vma))
on_added (err e) f = pure none
on_added (ok grown) f = f grown

-- `for vma in self.address_space.vmas`: the child's areas, which start with `mine`
unfoldable pub copy_areas : List Vma → ℕ → ℕ → ℕ → List Vma → M (Option (List Vma))
unfolding add_vma copy_area
copy_areas [] parent_pml4 child_pml4 new_pid mine = pure (some mine)
copy_areas (v ∷ vs) parent_pml4 child_pml4 new_pid mine = on_added (add_vma mine v) λ grown. do
  copy_area (rounds v.start v.end) v parent_pml4 child_pml4 new_pid v.start
  copy_areas vs parent_pml4 child_pml4 new_pid grown

-- the loop of `map_kernel_image`; 3 is PRESENT and WRITABLE
unfoldable pub map_image : ℕ → ℕ → ℕ → ℕ → M (Unit {0})
unfolding map_4kb
map_image zero pml4 addr end = pure tt
map_image (suc fuel) pml4 addr end = elim (ltb addr end) [
  | false ↦ pure tt
  | true ↦ do
    mapped ← map_4kb pml4 addr addr 3
    _ ← expect mapped
    map_image fuel pml4 (addr + page_size) end
]

unfoldable pub map_kernel_image : ℕ → ℕ → ℕ → M (Unit {0})
unfolding map_image
map_kernel_image pml4 image_base image_size =
    let start = page_down image_base in
    let end = page_up (add64 image_base image_size) in map_image (rounds start end) pml4 start end
