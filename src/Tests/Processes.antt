-- ===== src/Tests/Processes.antt =====
-- Process tables as kernel/src/process.rs keeps them: a shell that waits, its running child, and
-- another process that is ready.
use ferrum_os.Prelude.{
  ℕ, zero, suc, ◌<◌, ◌≡◌, refl, sym, ap, true, false, none, some, [], ◌∷◌, arith, length,
}
use ferrum_os.Fd.{Objects}
use ferrum_os.Sched.{
  Context, ProcessState, ready, running, waiting, Process, Scheduler, slot_at, is_in, next_process,
  schedule, resume, current_mut, alloc_pid,
}
use ferrum_os.Sched.Next.{Chosen, next_process-Chosen}
use ferrum_os.Sched.Switching.{OnlyCurrentRuns, schedule-OnlyCurrentRuns}
use ferrum_os.Sched.Turns.{Passes, done, pass, Passes-lt_length}
use ferrum_os.Procs.{end_current, wait_round, reaped}
use ferrum_os.Procs.Wait.{Waited, wait_round-Waited}
use ferrum_os.Procs.Exit.{exit-wait}

abbrev registers : Context
registers = record { rbx = 0; rbp = 0; r12 = 0; r13 = 0; r14 = 0; r15 = 0; rsp = 0x8000 }

abbrev pub process : ℕ → ℕ → ProcessState → Process
process pid parent_pid state = record {
  pid = pid;
  parent_pid = parent_pid;
  state = state;
  exit_code = 0;
  context = registers;
  kernel_stack_alloc = none;
  kernel_stack_top = 0x9000;
  address_space = record { pml4_phys = 0x100000; vmas = []; owner_pid = pid };
  fd_table = [];
  fs_base = 0;
  brk_start = 0;
  brk_current = 0;
  cwd = 47 ∷ [];
}

-- the shell, its child and the other process; the child runs
abbrev scheduler : Scheduler
scheduler = record {
  processes =
      some (process 1 0 waiting) ∷ some (process 2 1 running) ∷ some (process 3 0 ready) ∷ [];
  current_idx = 1;
  initialized = true;
}

abbrev objects : Objects
objects = record { files = []; pipes = [] }

next_process-Chosen_example : Chosen scheduler (next_process scheduler)
next_process-Chosen_example = next_process-Chosen scheduler

child_runs :
    (j : ℕ) → is_in running scheduler.processes j ≡ true → (scheduler.initialized ≡ true) × (j ≡ 1)
child_runs zero h = absurd (ground arith)
child_runs (suc zero) h = (refl, refl)
child_runs (suc (suc zero)) h = absurd (ground arith)
child_runs (suc (suc (suc j))) h = absurd (ground arith)

scheduler-OnlyCurrentRuns : OnlyCurrentRuns scheduler
scheduler-OnlyCurrentRuns = record { runs = child_runs }

schedule-OnlyCurrentRuns_example : OnlyCurrentRuns (schedule scheduler).1
schedule-OnlyCurrentRuns_example = schedule-OnlyCurrentRuns scheduler scheduler-OnlyCurrentRuns

-- Three ready processes; the first runs.
abbrev crowded : Scheduler
crowded = record {
  processes = some (process 1 0 running) ∷ some (process 2 1 ready) ∷ some (process 3 1 ready) ∷ [];
  current_idx = 0;
  initialized = true;
}

resumes_1 : (schedule crowded).0 ≡ resume 1
unfolding schedule
resumes_1 = refl

waits_2 : is_in ready (schedule crowded).1.processes 2 ≡ true
unfolding schedule
waits_2 = refl

crowded-Passes : Passes 2 1 crowded
crowded-Passes =
    pass 0 1 crowded (schedule crowded).1 refl resumes_1 (λ e. omega (arith, e)) refl refl
      (done (schedule crowded).1 waits_2)

Passes-lt_length_example : 1 < length crowded.processes
Passes-lt_length_example = Passes-lt_length 2 1 crowded crowded-Passes

wait_round-Waited_example : Waited 1 none false scheduler (wait_round 1 none false scheduler)
wait_round-Waited_example = wait_round-Waited 1 none false scheduler

child_is_current : current_mut scheduler ≡ some (process 2 1 running)
unfolding current_mut
child_is_current = refl

abbrev child : Process
child = process 2 1 running

exit-wait_example :
    (zombie : Process) × (t : Scheduler) × (wait_round 1 none false
        (end_current 7 scheduler objects).0
      ≡ reaped zombie t)
exit-wait_example = exit-wait 7 scheduler objects child child_is_current false

pid_of : (i : ℕ) (p : Process) → slot_at scheduler.processes i ≡ some p → p.pid ≡ suc i
pid_of zero p h = let same : process 1 0 waiting ≡ p = ground arith in ap (λ r. r.pid) (sym same)
pid_of (suc zero) p h =
    let same : process 2 1 running ≡ p = ground arith in ap (λ r. r.pid) (sym same)
pid_of (suc (suc zero)) p h =
    let same : process 3 0 ready ≡ p = ground arith in ap (λ r. r.pid) (sym same)
pid_of (suc (suc (suc i))) p h = absurd (ground arith)

scheduler_unique :
    (i j : ℕ) (p q : Process)
    → slot_at scheduler.processes i ≡ some p
    → slot_at scheduler.processes j ≡ some q
    → p.pid ≡ q.pid
    → i ≡ j
scheduler_unique i j p q hp hq e = omega (arith, pid_of i p hp, pid_of j q hq, e)

new_pid : alloc_pid scheduler ≡ 4
unfolding alloc_pid
new_pid = refl
