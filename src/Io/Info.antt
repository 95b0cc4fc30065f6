-- ===== src/Io/Info.antt =====
-- The system calls of kernel/src/syscall.rs that report something to user memory: uname, ioctl,
-- clock_gettime, time, getrandom and arch_prctl, for a process that runs. The timer's ticks and the
-- time-stamp counter are arguments.
use ferrum_os.Prelude.{
  ℕ, zero, suc, ◌+◌, ◌-◌, ◌*◌, ◌/◌, ◌%◌, ◌^◌, Bool, true, false, Option, none, some, List, [], ◌∷◌,
  ◌++◌, ◌==◌, if◌then◌else◌, length, replicate, le_bytes,
}
use ferrum_os.Fd.{OpenFile, FdKind, serial}
use ferrum_os.Procs.{errno}
use ferrum_os.Io.{System, Answer, returns, open_file_of, write_to_user}

-- EFAULT if the bytes could not be written
abbrev pub or_fault : ℕ → Bool × System → Answer
or_fault n (false, s) = returns (errno 14) s
or_fault n (true, s) = returns n s

-- a field of 65 bytes of `UtsName`, whose text is shorter
abbrev pub uts_field : List ℕ → List ℕ
uts_field text = text ++ replicate (65 - length text) 0

-- Linux, ferrum, 6.1.0, #1 Ferrum OS and x86_64, and no domain name
abbrev pub uts_bytes : List ℕ
uts_bytes =
    uts_field (76 ∷ 105 ∷ 110 ∷ 117 ∷ 120 ∷ [])
    ++ (uts_field (102 ∷ 101 ∷ 114 ∷ 114 ∷ 117 ∷ 109 ∷ [])
        ++ (uts_field (54 ∷ 46 ∷ 49 ∷ 46 ∷ 48 ∷ [])
            ++ (uts_field (35 ∷ 49 ∷ 32 ∷ 70 ∷ 101 ∷ 114 ∷ 114 ∷ 117 ∷ 109 ∷ 32 ∷ 79 ∷ 83 ∷ [])
                ++ (uts_field (120 ∷ 56 ∷ 54 ∷ 95 ∷ 54 ∷ 52 ∷ []) ++ uts_field []))))

unfoldable pub syscall_uname : ℕ → System → Answer
unfolding write_to_user
syscall_uname ptr s =
    if ptr == 0 then returns (errno 14) s else or_fault 0 (write_to_user s ptr uts_bytes)

-- TIOCGWINSZ on the serial line: 24 rows of 80 columns
abbrev pub window_size : ℕ → System → FdKind → Answer
window_size argp s serial = or_fault 0 (write_to_user s argp (24 ∷ 0 ∷ 80 ∷ 0 ∷ replicate 4 0))
window_size argp s _ = returns (errno 25) s

abbrev pub ioctl_open : ℕ → ℕ → System → Option (ℕ × OpenFile) → Answer
ioctl_open request argp s none = returns (errno 9) s
ioctl_open request argp s (some (entry, f)) =
    if request == 0x5413 then window_size argp s f.kind else returns (errno 25) s

unfoldable pub syscall_ioctl : ℕ → ℕ → ℕ → System → Answer
unfolding open_file_of write_to_user
syscall_ioctl fd request argp s = ioctl_open request argp s (open_file_of s fd)

-- ticks of 10 ms as seconds and nanoseconds
unfoldable pub syscall_clock_gettime : ℕ → ℕ → System → Answer
unfolding write_to_user le_bytes
syscall_clock_gettime ticks tp s =
    let ms = ticks * 10 in
    if tp == 0
    then returns (errno 14) s
    else or_fault 0
        (write_to_user s tp (le_bytes 8 (ms / 1000) ++ le_bytes 8 (ms % 1000 * 1000000)))

-- The result of the write is not looked at.
unfoldable pub syscall_time : ℕ → ℕ → System → Answer
unfolding write_to_user le_bytes
syscall_time ticks tloc s =
    let sec = ticks / 100 in
    let written = write_to_user s tloc (le_bytes 8 sec) in
    if tloc == 0 then returns sec s else returns sec written.1

-- `seed[i % 8].wrapping_add(i as u8).wrapping_mul(0x6d)`, for `n` values of `i`
unfoldable pub random_bytes : ℕ → ℕ → ℕ → List ℕ
random_bytes tsc i zero = []
random_bytes tsc i (suc n) =
    ((tsc / 256 ^ (i % 8) % 256 + i) % 256 * 0x6d % 256) ∷ random_bytes tsc (i + 1) n

unfoldable pub syscall_getrandom : ℕ → ℕ → ℕ → System → Answer
unfolding write_to_user random_bytes
syscall_getrandom tsc buf buflen s =
    if buf == 0
    then returns 0 s
    else if buflen == 0
    then returns 0 s
    else or_fault buflen (write_to_user s buf (random_bytes tsc 0 buflen))

-- `fs_base` of the process before and after; 0x1002 sets it, 0x1003 reports it
unfoldable pub syscall_arch_prctl : ℕ → ℕ → ℕ → System → Answer × ℕ
unfolding write_to_user le_bytes
syscall_arch_prctl code arg fs_base s =
    let written = write_to_user s arg (le_bytes 8 fs_base) in
    if code == 0x1002
    then (returns 0 s, arg)
    else if code == 0x1003
    then (returns 0 written.1, fs_base)
    else (returns (errno 22) s, fs_base)
