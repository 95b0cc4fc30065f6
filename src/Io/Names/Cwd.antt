-- ===== src/Io/Names/Cwd.antt =====
-- The working directory: chdir and getcwd of kernel/src/syscall.rs.
use ferrum_os.Prelude.{
  ℕ, zero, suc, ◌+◌, ◌≤◌, ◌<◌, ◌≡◌, ◌≢◌, refl, ◌∙◌, ap, Bool, true, false, ◌&&◌, Option, none, some,
  [], ◌∷◌, ◌++◌, ◌==◌, if◌then◌else◌, arith, length, length-append, ltb,
}
use ferrum_os.Procs.{errno}
use ferrum_os.Paths.{Str, resolve_path}
use ferrum_os.Paths.Normal.{IsNormal, resolve_path-IsNormal, resolve_path-normal}
use ferrum_os.Io.{
  System, AnswersWith, AnswersWith-returns, Answer, returns, store_bytes, cstr, read_user_cstr,
  write_to_user,
}
use ferrum_os.Io.Buffers.{IsMapped, write_to_user-eq-store_bytes, write_to_user-frame}
use ferrum_os.Io.Names.{
  path_max, on_path, exists, chdir_path, syscall_chdir, as_bytes, put_cwd, syscall_getcwd,
}

-- How chdir ends: in the directory that the path resolves to, which exists and is normal, or with
-- an error and nothing changed.
abbrev pub Moved : System → Option Str → Answer → Type 0
Moved s none a = a ≡ returns (errno 14) s
Moved s (some raw_path) a =
    let path = resolve_path s.cwd raw_path in
    IsNormal path
    × (a ≡ (if exists s.fs path then returns 0 (record s { cwd = path }) else returns (errno 2) s))

on_path-Moved :
    (s : System) (r : Option Str) → IsNormal s.cwd → Moved s r (on_path s r (chdir_path s))
on_path-Moved s none n = refl
on_path-Moved s (some raw_path) n = (resolve_path-IsNormal s.cwd raw_path n, refl)

-- From a normal working directory, chdir returns EFAULT if the path cannot be read, ENOENT if
-- nothing exists at the path it resolves to, both without a change, and else returns 0 with that
-- path, which is normal, as the working directory and no other change.
pub syscall_chdir-Moved :
    (ptr : ℕ) (s : System)
    → IsNormal s.cwd
    → Moved s (read_user_cstr s.user ptr path_max) (syscall_chdir ptr s)
unfolding syscall_chdir
syscall_chdir-Moved ptr s n = on_path-Moved s (read_user_cstr s.user ptr path_max) n

-- Every character is one byte of UTF-8 and not the zero byte.
abbrev pub is_ascii : Str → Bool
is_ascii [] = true
is_ascii (c ∷ cs) = ltb 0 c && ltb c 128 && is_ascii cs

pub as_bytes-ascii : (cs : Str) → is_ascii cs ≡ true → as_bytes cs ≡ cs
unfolding as_bytes
as_bytes-ascii [] h = refl
as_bytes-ascii (c ∷ cs) h =
    let small : ltb c 128 ≡ true = ground arith in
    let rest = as_bytes-ascii cs (ground arith) in rw small (ap (λ r. c ∷ r) rest)

pub cstr-same :
    (u v : ℕ → ℕ) (ptr max : ℕ) → ((a : ℕ) → ptr ≤ a → u a ≡ v a) → cstr u ptr max ≡ cstr v ptr max
unfolding cstr
cstr-same u v ptr zero h = refl
cstr-same u v ptr (suc max) h =
    let here = h ptr (omega arith) in
    let rest = cstr-same u v (ptr + 1) max (λ a le. h a (omega arith)) in ground (arith, here, rest)

pub cstr-store_bytes :
    (u : ℕ → ℕ) (ptr max : ℕ) (cs : Str)
    → is_ascii cs ≡ true
    → length cs < max
    → cstr (store_bytes u ptr (cs ++ 0 ∷ [])) ptr max ≡ some cs
unfolding cstr store_bytes
cstr-store_bytes u ptr zero cs ok h = absurd (omega arith)
cstr-store_bytes u ptr (suc max) [] ok h = ground arith
cstr-store_bytes u ptr (suc max) (c ∷ cs) ok h =
    let rest =
      cstr-same (store_bytes u ptr (c ∷ (cs ++ 0 ∷ []))) (store_bytes u (ptr + 1) (cs ++ 0 ∷ []))
        (ptr + 1) max (λ a le. ground arith)
      ∙ cstr-store_bytes u (ptr + 1) max cs (ground arith) (omega arith) in
    let here : store_bytes u ptr (c ∷ (cs ++ 0 ∷ [])) ptr ≡ c = ground arith in
    let nonzero : (c == 0) ≡ false = ground arith in
    rw here (rw nonzero (rw rest (ap (λ x. some (x ∷ cs)) here)))

put_cwd-true : (buf : ℕ) (r : Bool × System) → r.0 ≡ true → put_cwd buf r ≡ returns buf r.1
put_cwd-true buf (b, s) h = rw h refl

chdir_path-here : (s : System) → exists s.fs s.cwd ≡ true → chdir_path s s.cwd ≡ returns 0 s
chdir_path-here s h = rw h refl

on_path-cwd :
    (t : System) (r : Option Str)
    → IsNormal t.cwd
    → exists t.fs t.cwd ≡ true
    → r ≡ some t.cwd
    → on_path t r (chdir_path t) ≡ returns 0 t
on_path-cwd t r n h e =
    ap (λ q. on_path t q (chdir_path t)) e
    ∙ ap (chdir_path t) (resolve_path-normal t.cwd t.cwd n)
    ∙ chdir_path-here t h

syscall_getcwd-fits :
    (s : System) (buf size : ℕ)
    → is_ascii s.cwd ≡ true
    → length s.cwd < size
    → syscall_getcwd buf size s ≡ put_cwd buf (write_to_user s buf (s.cwd ++ 0 ∷ []))
unfolding syscall_getcwd
syscall_getcwd-fits s buf size ascii room =
    let fits : ltb size (length s.cwd + 1) ≡ false = ground arith in
    rw (as_bytes-ascii s.cwd ascii) (rw fits refl)

read_user_cstr-stored :
    (u v : ℕ → ℕ) (buf : ℕ) (cs : Str)
    → buf ≢ 0
    → is_ascii cs ≡ true
    → length cs < path_max
    → ((a : ℕ) → u a ≡ store_bytes v buf (cs ++ 0 ∷ []) a)
    → read_user_cstr u buf path_max ≡ some cs
unfolding read_user_cstr
read_user_cstr-stored u v buf cs there ascii short same =
    let nonzero : (buf == 0) ≡ false = ground arith in
    rw nonzero (
      cstr-same u (store_bytes v buf (cs ++ 0 ∷ [])) buf path_max (λ a le. same a)
      ∙ cstr-store_bytes v buf path_max cs ascii short)

syscall_chdir-here :
    (t : System) (buf : ℕ)
    → IsNormal t.cwd
    → exists t.fs t.cwd ≡ true
    → read_user_cstr t.user buf path_max ≡ some t.cwd
    → syscall_chdir buf t ≡ returns 0 t
unfolding syscall_chdir
syscall_chdir-here t buf n h e = on_path-cwd t (read_user_cstr t.user buf path_max) n h e

-- If the working directory is normal, consists of ASCII characters other than zero, is shorter
-- than 256 characters and than the buffer, and exists, and the buffer is not at address 0 and is
-- mapped, then getcwd returns the buffer, and chdir to the path in the buffer returns 0 and
-- changes nothing.
pub chdir-getcwd :
    (s : System) (buf size : ℕ)
    → IsNormal s.cwd
    → is_ascii s.cwd ≡ true
    → length s.cwd < path_max
    → length s.cwd < size
    → buf ≢ 0
    → IsMapped s buf (length s.cwd + 1)
    → exists s.fs s.cwd ≡ true
    → AnswersWith buf (λ t. syscall_chdir buf t ≡ returns 0 t) (syscall_getcwd buf size s)
chdir-getcwd s buf size n ascii short room there mapped h =
    let bytes = s.cwd ++ 0 ∷ [] in
    let w = write_to_user s buf bytes in
    let (done, stored) =
      write_to_user-eq-store_bytes s buf bytes (rw (length-append s.cwd (0 ∷ [])) mapped) in
    let t = record s { user = w.1.user } in
    AnswersWith-returns buf (λ t'. syscall_chdir buf t' ≡ returns 0 t') _ t
      (syscall_getcwd-fits s buf size ascii room
        ∙ put_cwd-true buf w done
        ∙ ap (returns buf) (write_to_user-frame s buf bytes))
      (syscall_chdir-here t buf n h
        (read_user_cstr-stored w.1.user s.user buf s.cwd there ascii short stored))
