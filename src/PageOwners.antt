-- ===== src/PageOwners.antt =====
-- kernel/src/page_owner.rs: the list of tracked pages.
use ferrum_os.Prelude.{ℕ, Option, none, some, List, [], ◌∷◌, ◌++◌, ltb, ◌==◌, if◌then◌else◌, length}
use ferrum_os.Machine.{OwnerTag, PageOwner, M}

-- `PAGE_OWNERS` reserves room for this many entries and never grows.
abbrev pub reserve_capacity : ℕ
reserve_capacity = 8192

unfoldable pub track : ℕ → ℕ → OwnerTag → ℕ → M (Unit {0})
track phys order tag pid m =
    if ltb (length m.owners) reserve_capacity
    then some (
      tt,
      record m { owners = m.owners ++ (phys, record { tag = tag; pid = pid; order = order }) ∷ [] },
    )
    else none

-- `iter().position(|(addr, _)| *addr == phys)`, and the owner there
unfoldable pub owner_of : List (ℕ × PageOwner) → ℕ → Option PageOwner
owner_of [] phys = none
owner_of ((addr, o) ∷ l) phys = if addr == phys then some o else owner_of l phys

unfoldable pub last_owner : (ℕ × PageOwner) → List (ℕ × PageOwner) → ℕ × PageOwner
last_owner e [] = e
last_owner e (f ∷ l) = last_owner f l

abbrev pub but_last : (ℕ × PageOwner) → List (ℕ × PageOwner) → List (ℕ × PageOwner)
but_last e [] = []
but_last e (f ∷ l) = e ∷ but_last f l

-- `swap_remove` at the first entry of the page: the last entry takes its place.
unfoldable pub swap_remove : List (ℕ × PageOwner) → ℕ → List (ℕ × PageOwner)
unfolding last_owner
swap_remove [] phys = []
swap_remove ((addr, o) ∷ []) phys = if addr == phys then [] else (addr, o) ∷ []
swap_remove ((addr, o) ∷ f ∷ l) phys =
    if addr == phys then last_owner f l ∷ but_last f l else (addr, o) ∷ swap_remove (f ∷ l) phys

unfoldable pub untrack : ℕ → M (Option PageOwner)
unfolding owner_of swap_remove
untrack phys m = some (owner_of m.owners phys, record m { owners = swap_remove m.owners phys })
