-- ===== src/Pipes.antt =====
-- The pipe branches of `syscall_read` and `syscall_write` of kernel/src/syscall.rs, on the buffer of
-- kernel/src/pipe.rs. A read that has to wait calls the scheduler and tries again; one try is
-- `read_round`.
pub mod Stream
use ferrum_os.Prelude.{
  ℕ, zero, suc, List, [], ◌∷◌, ◌++◌, ◌==◌, if◌then◌else◌, Bool, true, false, length, min, take,
  drop,
}
use ferrum_os.Fd.{PipeInner}
use ferrum_os.Procs.{errno}

-- what one try of a read comes to: the bytes that it took, end of file, or a wait for a writer
pub data ReadRound : Type 0 where
  taken : List ℕ → ReadRound
  end_of_file blocked : ReadRound

abbrev pub empty_round : PipeInner → ReadRound × PipeInner
empty_round p = (if p.write_ends == 0 then end_of_file else blocked, p)

abbrev pub read_from : PipeInner → ℕ → List ℕ → ReadRound × PipeInner
read_from p count [] = empty_round p
read_from p count (b ∷ bs) =
    let n = min (length (b ∷ bs)) count in
    (taken (take n (b ∷ bs)), record p { buf = drop n (b ∷ bs) })

unfoldable pub read_round : PipeInner → ℕ → ReadRound × PipeInner
read_round p count = read_from p count p.buf

unfoldable pub write_pipe : PipeInner → List ℕ → ℕ × PipeInner
write_pipe p bytes =
    if p.read_ends == 0 then (errno 32, p) else (length bytes, record p { buf = p.buf ++ bytes })
