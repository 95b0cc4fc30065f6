-- ===== src/Io/Files/Seek.antt =====
-- lseek of kernel/src/syscall.rs on every branch.
use ferrum_os.Prelude.{
  ℕ, ◌^◌, ◌%◌, ◌<◌, ◌≡◌, refl, true, Option, none, some, arith, inl, inr, Bool-cases, ◌⊎◌,
}
use ferrum_os.Fd.{OpenFile}
use ferrum_os.Procs.{errno}
use ferrum_os.Io.{System, Answer, returns, open_file_of, set_file, size_of}
use ferrum_os.Io.Files.{is_negative, seek_target, seek_to, seek_open, syscall_lseek}

-- How lseek ends on an open file: at the asked place, which is not negative, with the offset there;
-- or with EINVAL, for an unknown `whence` or a negative place, and nothing changed.
abbrev pub Sought : System → ℕ → OpenFile → Option ℕ → Answer → Type 0
Sought s entry f none a = a ≡ returns (errno 22) s
Sought s entry f (some target) a =
    ((target < 2 ^ 63) × (a ≡ returns target (set_file s entry (record f { offset = target }))))
    ⊎ ((is_negative target ≡ true) × (a ≡ returns (errno 22) s))

seek_to-Sought :
    (s : System) (entry : ℕ) (f : OpenFile) (r : Option ℕ)
    → Sought s entry f r (seek_to s entry f r)
seek_to-Sought s entry f none = refl
seek_to-Sought s entry f (some target) = elim (Bool-cases (is_negative target)) [
  | inl c ↦ inr (c, rw c refl)
  | inr c ↦ inl (ground arith, rw c refl)
]

-- The whole call: EBADF without an open file, and else as above, from the start, the offset or the
-- size of the file.
abbrev pub Lseek : ℕ → ℕ → System → Option (ℕ × OpenFile) → Answer → Type 0
Lseek offset whence s none a = a ≡ returns (errno 9) s
Lseek offset whence s (some (entry, f)) a =
    Sought s entry f (seek_target (size_of s.fs f.node) f.offset offset whence) a

seek_open-Lseek :
    (offset whence : ℕ) (s : System) (r : Option (ℕ × OpenFile))
    → Lseek offset whence s r (seek_open offset whence s r)
seek_open-Lseek offset whence s none = refl
seek_open-Lseek offset whence s (some (entry, f)) =
    seek_to-Sought s entry f (seek_target (size_of s.fs f.node) f.offset offset whence)

-- lseek returns EBADF without an open file, and EINVAL for an unknown whence or a target that is
-- negative as a signed number, both without a change; else it returns the target, from the start,
-- the offset or the size of the file, which becomes the offset.
pub syscall_lseek-Lseek :
    (fd offset whence : ℕ) (s : System)
    → Lseek offset (whence % 2 ^ 32) s (open_file_of s fd) (syscall_lseek fd offset whence s)
unfolding syscall_lseek
syscall_lseek-Lseek fd offset whence s =
    seek_open-Lseek offset (whence % 2 ^ 32) s (open_file_of s fd)
