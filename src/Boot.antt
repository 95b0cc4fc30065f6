-- ===== src/Boot.antt =====
-- kernel/src/main.rs: what the start of the kernel hands to its parts, after the boot loader is done.
-- Regions has the memory that the page allocator gets; here are the first files and the first process.
pub mod Regions
pub mod Cover
pub mod Made
pub mod Populated
use ferrum_os.Prelude.{ℕ, ◌+◌, Option, none, some, List, [], ◌∷◌, Result, ok, err, get_elem?}
use ferrum_os.Machine.{M, Machine, pure, panic, ◌>>=◌, ◌>>◌}
use ferrum_os.Buddy
use ferrum_os.Paging.Tables
use ferrum_os.Paging.Tables.{copy_entries}
use ferrum_os.Fd.{Objects}
use ferrum_os.Vma.Space.{AddressSpace}
use ferrum_os.Sched.{Process, Scheduler, add_process}
use ferrum_os.Paths.{Str}
use ferrum_os.Ramfs.{Ramfs, RamfsNode, open_node, write_file, mkdir}
use ferrum_os.Initramfs.{Extracted, extracted, panicked, out_of_fuel, extract}
use ferrum_os.Elf.Segments.{load_elf}
use ferrum_os.Spawn.{Kernel, no_areas, zero_range}
use ferrum_os.Spawn.Copy.{expect, map_kernel_image}
use ferrum_os.Spawn.Fork.{kstack_len}
use ferrum_os.Exec.Execve.{Passing, start_with, read_all, with_break}
use ferrum_os.Exec.First.{KernelStack, new_user_with_address_space}

-- `/dev`, `/proc`, `/tmp` and `/etc`
abbrev pub boot_dirs : List Str
boot_dirs =
    (47 ∷ 100 ∷ 101 ∷ 118 ∷ [])
    ∷ (47 ∷ 112 ∷ 114 ∷ 111 ∷ 99 ∷ [])
    ∷ (47 ∷ 116 ∷ 109 ∷ 112 ∷ [])
    ∷ (47 ∷ 101 ∷ 116 ∷ 99 ∷ [])
    ∷ []

-- `/dev/null`, `/dev/zero` and `/dev/tty`
abbrev pub boot_devices : List Str
boot_devices =
    (47 ∷ 100 ∷ 101 ∷ 118 ∷ 47 ∷ 110 ∷ 117 ∷ 108 ∷ 108 ∷ [])
    ∷ (47 ∷ 100 ∷ 101 ∷ 118 ∷ 47 ∷ 122 ∷ 101 ∷ 114 ∷ 111 ∷ [])
    ∷ (47 ∷ 100 ∷ 101 ∷ 118 ∷ 47 ∷ 116 ∷ 116 ∷ 121 ∷ [])
    ∷ []

unfoldable pub make_dirs : List Str → Ramfs → Ramfs
unfolding mkdir
make_dirs [] fs = fs
make_dirs (d ∷ ds) fs = make_dirs ds (mkdir fs d)

abbrev pub device_file : Ramfs → Str → Option ℕ → Ramfs
device_file fs dev none = write_file fs dev []
device_file fs dev (some n) = fs

unfoldable pub make_devices : List Str → Ramfs → Ramfs
unfolding open_node write_file
make_devices [] fs = fs
make_devices (d ∷ ds) fs = make_devices ds (device_file fs d (open_node fs d))

-- the archive, if there is one
abbrev pub unpacked : (List ℕ → Option Str) → Ramfs → Option (List ℕ) → Extracted
unpacked from_utf8 fs none = extracted fs
unpacked from_utf8 fs (some archive) = extract from_utf8 archive fs

abbrev pub completed : Extracted → Extracted
completed (extracted fs) = extracted (make_devices boot_devices (make_dirs boot_dirs fs))
completed panicked = panicked
completed out_of_fuel = out_of_fuel

-- `populate_rootfs`; `from_utf8` is the library's decoding of names.
unfoldable pub populate_rootfs : (List ℕ → Option Str) → Option (List ℕ) → Ramfs → Extracted
unfolding extract make_dirs make_devices
populate_rootfs from_utf8 archive fs = completed (unpacked from_utf8 fs archive)

abbrev pub non_empty : List ℕ → Option (List ℕ) → Option (List ℕ)
non_empty [] other = other
non_empty (b ∷ bs) other = some (b ∷ bs)

abbrev pub node_data : Ramfs → Option ℕ → Option (List ℕ) → Option (List ℕ)
node_data fs none other = other
node_data fs (some n) other = non_empty (read_all (get_elem? fs.nodes n)) other

-- `load_init_elf`: the bytes of `/bin/sh`, or else of `/init`
unfoldable pub load_init_elf : Ramfs → Option (List ℕ)
unfolding open_node
load_init_elf fs =
    let sh = 47 ∷ 98 ∷ 105 ∷ 110 ∷ 47 ∷ 115 ∷ 104 ∷ [] in
    let init = 47 ∷ 105 ∷ 110 ∷ 105 ∷ 116 ∷ [] in
    node_data fs (open_node fs sh) (node_data fs (open_node fs init) none)

-- the arguments and the environment of the first program: `ash`, and PATH, HOME and TERM
abbrev pub init_passing : List Str → ℕ → ℕ → Passing
init_passing envp tsc1 tsc2 = record {
  argv = (97 ∷ 115 ∷ 104 ∷ []) ∷ [];
  envp = envp;
  tsc1 = tsc1;
  tsc2 = tsc2;
}

abbrev pub init_stack : ℕ → KernelStack
init_stack kstack = record { base = kstack; len = kstack_len; block = some (kstack, 3) }

abbrev pub expect_ok : Result ℕ × AddressSpace → M (ℕ × AddressSpace)
expect_ok (err e, space) = panic
expect_ok (ok entry, space) = pure (entry, space)

-- The first process: its tables share the upper half of the table in use.
abbrev pub init_process : Kernel → ℕ → ℕ → Passing → List ℕ → Objects → ℕ → M (Process × Objects)
init_process k kernel_pml4 current_pml4 a elf_data o kstack = do
  table ← Tables.new_user kernel_pml4 1
  pml4 ← expect table
  result ← load_elf (no_areas pml4 1) elf_data
  loaded ← expect_ok result
  map_kernel_image pml4 k.image_base k.image_size
  copy_entries 256 256 pml4 current_pml4
  made ←
      new_user_with_address_space k 1 loaded.0 (init_stack kstack) 128
        (start_with 0x7ffe_f000 a elf_data loaded.0) loaded.1 o
  process ← expect made
  pure (with_break process.0, process.1)

abbrev pub start_init :
    Kernel → ℕ → ℕ → Passing → Scheduler → Objects → ℕ → Option (List ℕ) → M (Scheduler × Objects)
start_init k kernel_pml4 current_pml4 a s o kstack none = pure (s, o)
start_init k kernel_pml4 current_pml4 a s o kstack (some elf_data) = do
  p ← init_process k kernel_pml4 current_pml4 a elf_data o kstack
  Buddy.check_metadata_integrity
  pure (add_process s p.0, p.1)

-- `start_scheduler` up to its call of `schedule`; `current_pml4` is what CR3 holds.
unfoldable pub start_scheduler :
    Kernel → ℕ → Passing → Ramfs → Scheduler → Objects → M (Scheduler × Objects)
unfolding Tables.new_user load_elf map_kernel_image copy_entries new_user_with_address_space
    Buddy.check_metadata_integrity load_init_elf
start_scheduler k current_pml4 a fs s o = do
  kernel_pml4 ← expect k.kernel_pml4
  found ← Buddy.alloc 3
  kstack ← expect found
  zero_range kstack kstack_len
  start_init k kernel_pml4 current_pml4 a s o kstack (load_init_elf fs)
