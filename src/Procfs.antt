-- ===== src/Procfs.antt =====
-- kernel/src/fs/procfs.rs: the texts of /proc/self/maps and /proc/self/status. The formats `{}` and
-- `{:016x}` of `core::fmt` are written out, and `sort_by_key` is a stable sort.
pub mod Digits
use ferrum_os.Prelude.{
  ℕ, zero, suc, ◌+◌, ◌-◌, ◌*◌, ◌/◌, ◌%◌, Bool, true, false, List, [], ◌∷◌, ◌++◌, ltb, leb,
  if◌then◌else◌,
}
use ferrum_os.Paths.{Str}
use ferrum_os.Vma.{Vma, VmaKind, anonymous, stack, heap}
use ferrum_os.Vma.Space.{AddressSpace}
use ferrum_os.Sched.{Process, ProcessState, ready, running, blocked, waiting, dead}

abbrev pub hex_char : ℕ → ℕ
hex_char d = if ltb d 10 then 48 + d else 87 + d

-- the lowest `n` hexadecimal digits
unfoldable pub hex_digits : ℕ → ℕ → Str
hex_digits zero w = []
hex_digits (suc n) w = hex_digits n (w / 16) ++ hex_char (w % 16) ∷ []

-- A number of 64 bits has at most 20 decimal digits.
unfoldable pub decimal : ℕ → ℕ → Str
decimal zero w = []
decimal (suc n) w =
    let rest = decimal n (w / 10) in if ltb w 10 then (48 + w) ∷ [] else rest ++ (48 + w % 10) ∷ []

abbrev pub max_digits : ℕ
max_digits = 20

-- `sort_by_key(|v| v.start)`
unfoldable pub insert_by_start : Vma → List Vma → List Vma
insert_by_start v [] = v ∷ []
insert_by_start v (w ∷ ws) = if leb v.start w.start then v ∷ w ∷ ws else w ∷ insert_by_start v ws

unfoldable pub sort_by_start : List Vma → List Vma
unfolding insert_by_start
sort_by_start [] = []
sort_by_start (v ∷ vs) = insert_by_start v (sort_by_start vs)

abbrev pub flag_char : Bool → ℕ → ℕ
flag_char b c = if b then c else 45

-- [stack], [heap] or nothing
abbrev pub label : VmaKind → Str
label stack = 91 ∷ 115 ∷ 116 ∷ 97 ∷ 99 ∷ 107 ∷ 93 ∷ []
label heap = 91 ∷ 104 ∷ 101 ∷ 97 ∷ 112 ∷ 93 ∷ []
label anonymous = []

-- `p 00000000 00:00 0` and ten spaces
abbrev pub maps_tail : Str
maps_tail =
    112 ∷ 32 ∷ 48 ∷ 48 ∷ 48 ∷ 48 ∷ 48 ∷ 48 ∷ 48 ∷ 48 ∷ 32 ∷ 48 ∷ 48 ∷ 58 ∷ 48 ∷ 48 ∷ 32 ∷ 48 ∷ 32
    ∷ 32 ∷ 32 ∷ 32 ∷ 32 ∷ 32 ∷ 32 ∷ 32 ∷ 32 ∷ 32 ∷ []

unfoldable pub maps_line : Vma → Str
unfolding hex_digits
maps_line v =
    hex_digits 16 v.start
    ++ (45 ∷ hex_digits 16 v.end
        ++ (32
              ∷ flag_char v.flags.read 114
              ∷ flag_char v.flags.write 119
              ∷ flag_char v.flags.exec 120
              ∷ maps_tail
            ++ (label v.kind ++ 10 ∷ [])))

unfoldable pub maps_lines : List Vma → Str
unfolding maps_line
maps_lines [] = []
maps_lines (v ∷ vs) = maps_line v ++ maps_lines vs

unfoldable pub format_maps : Process → Str
unfolding maps_lines sort_by_start
format_maps p = maps_lines (sort_by_start p.address_space.vmas)

-- R (running), S (sleeping), Z (zombie) and W (waiting)
abbrev pub state_str : ProcessState → Str
state_str running = 82 ∷ 32 ∷ 40 ∷ 114 ∷ 117 ∷ 110 ∷ 110 ∷ 105 ∷ 110 ∷ 103 ∷ 41 ∷ []
state_str ready = 82 ∷ 32 ∷ 40 ∷ 114 ∷ 117 ∷ 110 ∷ 110 ∷ 105 ∷ 110 ∷ 103 ∷ 41 ∷ []
state_str blocked = 83 ∷ 32 ∷ 40 ∷ 115 ∷ 108 ∷ 101 ∷ 101 ∷ 112 ∷ 105 ∷ 110 ∷ 103 ∷ 41 ∷ []
state_str dead = 90 ∷ 32 ∷ 40 ∷ 122 ∷ 111 ∷ 109 ∷ 98 ∷ 105 ∷ 101 ∷ 41 ∷ []
state_str waiting = 87 ∷ 32 ∷ 40 ∷ 119 ∷ 97 ∷ 105 ∷ 116 ∷ 105 ∷ 110 ∷ 103 ∷ 41 ∷ []

unfoldable pub mapped_kb : List Vma → ℕ
mapped_kb [] = 0
mapped_kb (v ∷ vs) = (v.end - v.start) / 1024 + mapped_kb vs

-- Name, and the key Pid
abbrev pub name_line : Str
name_line =
    78 ∷ 97 ∷ 109 ∷ 101 ∷ 58 ∷ 9 ∷ 112 ∷ 114 ∷ 111 ∷ 99 ∷ 101 ∷ 115 ∷ 115 ∷ 10 ∷ 80 ∷ 105 ∷ 100 ∷ 58
    ∷ 9 ∷ []

-- the key PPid
abbrev pub ppid_key : Str
ppid_key = 10 ∷ 80 ∷ 80 ∷ 105 ∷ 100 ∷ 58 ∷ 9 ∷ []

-- the key State
abbrev pub state_key : Str
state_key = 10 ∷ 83 ∷ 116 ∷ 97 ∷ 116 ∷ 101 ∷ 58 ∷ 9 ∷ []

-- Threads, and the key VmSize
abbrev pub threads_line : Str
threads_line =
    10 ∷ 84 ∷ 104 ∷ 114 ∷ 101 ∷ 97 ∷ 100 ∷ 115 ∷ 58 ∷ 9 ∷ 49 ∷ 10 ∷ 86 ∷ 109 ∷ 83 ∷ 105 ∷ 122 ∷ 101
    ∷ 58 ∷ 9 ∷ []

-- the key VmHeap
abbrev pub heap_key : Str
heap_key = 32 ∷ 107 ∷ 66 ∷ 10 ∷ 86 ∷ 109 ∷ 72 ∷ 101 ∷ 97 ∷ 112 ∷ 58 ∷ 9 ∷ []

-- the unit of the last line
abbrev pub last_unit : Str
last_unit = 32 ∷ 107 ∷ 66 ∷ 10 ∷ []

unfoldable pub format_status : Process → Str
unfolding decimal mapped_kb
format_status p =
    name_line
    ++ (decimal max_digits p.pid
        ++ (ppid_key
            ++ (decimal max_digits p.parent_pid
                ++ (state_key
                    ++ (state_str p.state
                        ++ (threads_line
                            ++ (decimal max_digits (mapped_kb p.address_space.vmas)
                                ++ (heap_key
                                    ++ (decimal max_digits ((p.brk_current - p.brk_start) / 1024)
                                        ++ last_unit)))))))))
