-- ===== src/Pipes/Stream.antt =====
-- A pipe as a stream: the order of bytes through the pipe branches of kernel/src/syscall.rs.
use ferrum_os.Prelude.{
  ℕ, zero, suc, ◌<◌, ◌≡◌, refl, sym, ◌∙◌, ap, false, List, [], ◌∷◌, ◌++◌, ◌==◌, length, min, take,
  drop, arith, Bool-cases, inl, inr,
}
use ferrum_os.Fd.{PipeInner}
use ferrum_os.Pipes.{
  ReadRound, taken, end_of_file, blocked, empty_round, read_from, read_round, write_pipe,
}

-- A call on one pipe: a try to read up to so many bytes, or a write.
pub data Call : Type 0 where
  reads : ℕ → Call
  writes : List ℕ → Call

abbrev pub bytes_of : ReadRound → List ℕ
bytes_of (taken bytes) = bytes
bytes_of end_of_file = []
bytes_of blocked = []

-- the bytes that a sequence of calls reads in all, and the pipe after it
unfoldable pub run : PipeInner → List Call → List ℕ × PipeInner
run p [] = ([], p)
run p (reads n ∷ calls) =
    let r = read_round p n in let rest = run r.1 calls in (bytes_of r.0 ++ rest.0, rest.1)
run p (writes bytes ∷ calls) = run (write_pipe p bytes).1 calls

-- the bytes that a sequence of calls writes in all
unfoldable pub written : List Call → List ℕ
written [] = []
written (reads n ∷ calls) = written calls
written (writes bytes ∷ calls) = bytes ++ written calls

take-drop : (n : ℕ) (bs : List ℕ) → take n bs ++ drop n bs ≡ bs
take-drop zero bs = refl
take-drop (suc n) [] = refl
take-drop (suc n) (b ∷ bs) = ap (λ r. b ∷ r) (take-drop n bs)

append_nil : (bs : List ℕ) → bs ++ [] ≡ bs
append_nil [] = refl
append_nil (b ∷ bs) = ap (λ r. b ∷ r) (append_nil bs)

append_assoc : (ds bs cs : List ℕ) → (ds ++ bs) ++ cs ≡ ds ++ (bs ++ cs)
append_assoc [] bs cs = refl
append_assoc (d ∷ ds) bs cs = ap (λ r. d ∷ r) (append_assoc ds bs cs)

empty_stream :
    (p : PipeInner)
    → p.buf ≡ []
    → (bytes_of (empty_round p).0 ++ (empty_round p).1.buf ≡ p.buf)
      × ((empty_round p).1.read_ends ≡ p.read_ends)
empty_stream p e = elim (Bool-cases (p.write_ends == 0)) [
  | inl c ↦ rw c (refl, refl)
  | inr c ↦ rw c (refl, refl)
]

read_stream :
    (p : PipeInner) (n : ℕ) (buf : List ℕ)
    → p.buf ≡ buf
    → (bytes_of (read_from p n buf).0 ++ (read_from p n buf).1.buf ≡ p.buf)
      × ((read_from p n buf).1.read_ends ≡ p.read_ends)
read_stream p n [] e = empty_stream p e
read_stream p n (b ∷ bs) e = (take-drop (min (length (b ∷ bs)) n) (b ∷ bs) ∙ sym e, refl)

-- For a pipe with a reading end, in every sequence of writes and tries to read, the bytes read in
-- all, followed by those left in the buffer, are those of the first buffer followed by the bytes
-- written in all: none is lost, repeated or moved.
pub run-written :
    (p : PipeInner) (calls : List Call)
    → 0 < p.read_ends
    → (run p calls).0 ++ (run p calls).1.buf ≡ p.buf ++ written calls
unfolding run written read_round write_pipe
run-written p [] h = sym (append_nil p.buf)
run-written p (reads n ∷ calls) h =
    let (same, ends) = read_stream p n p.buf refl in
    let r = read_from p n p.buf in
    append_assoc (bytes_of r.0) (run r.1 calls).0 (run r.1 calls).1.buf
    ∙ ap (λ x. bytes_of r.0 ++ x) (run-written r.1 calls (omega (arith, ends, h)))
    ∙ sym (append_assoc (bytes_of r.0) r.1.buf (written calls))
    ∙ ap (λ x. x ++ written calls) same
run-written p (writes bytes ∷ calls) h =
    let has : p.read_ends == 0 ≡ false = ground arith in
    let p' : PipeInner = record p { buf = p.buf ++ bytes } in
    let here : (write_pipe p bytes).1 ≡ p' = rw has refl in
    ap (λ x. (run x calls).0 ++ (run x calls).1.buf) here
    ∙ run-written p' calls h
    ∙ append_assoc p.buf bytes (written calls)
