-- ===== src/Run/Session.antt =====
-- `kio_run` of driver/kio_run.c: start the threads, wait, stop them, and report.
pub mod Outcomes
pub mod Total
pub mod Summary
pub mod Clears
use kernel_io.Common.{
  ℕ, zero, suc, ◌+◌, Bool, true, false, not, Option, none, some, List, [], ◌∷◌, ◌==◌, if◌then◌else◌,
  get_elem?, Exec, done, fault, ◌>>=◌, load, eintr, enomem, erange,
}
use mathlib.Core.List.{map}
use kernel_io.Config.Types.{KioThreadConfig, KioConfig, cells}
use kernel_io.Run.Thread.{KioThread, Task, null, task, err_ptr, fresh_thread}
use kernel_io.Run.Stats.{Report, no_stats, sum_stats, kio_run_stats_total}

-- What happens outside during a run: whether `kzalloc` returns memory, the error of `kthread_run`
-- for each thread or none, whether the wait has ended with `emergency_stop` set, and what a thread
-- has become when `kthread_stop` returns. That it returns is taken for granted here.
pub record Environment : Type 0 where
  pub memory : Bool
  pub kthread_run : ℕ → Option ℕ
  pub emergency_stop : Bool
  pub stopped : KioThread → KioThread

-- The first loop: every block size is 4096.
pub check_block_sizes : (rounds i : ℕ) → List KioThreadConfig → Exec Bool
check_block_sizes zero i ts = done true
check_block_sizes (suc rounds) i ts = load (get_elem? ts i) >>= λ t.
    if not (t.block_size == 4096) then done false else check_block_sizes rounds (i + 1) ts

-- How the loop that starts the threads ends. The threads behind one that could not be started are
-- zero, with a NULL `thread`, and are not listed.
pub data Started : Type 0 where
  started : List KioThread → Started
  first_failed : ℕ → Started
  later_failed : List KioThread → ℕ → Started

abbrev put_before : KioThread → Started → Started
put_before th (started ths) = started (th ∷ ths)
put_before th (first_failed e) = first_failed e
put_before th (later_failed ths e) = later_failed (th ∷ ths) e

-- `if (IS_ERR(ths[i].thread))`
abbrev start_failed : ℕ → KioThreadConfig → ℕ → Started
start_failed i t e =
    if i == 0
    then first_failed e
    else later_failed (record (fresh_thread i t) { thread = err_ptr e } ∷ []) e

pub start_threads : Environment → (rounds i : ℕ) → List KioThreadConfig → Exec Started
start_threads env zero i ts = done (started [])
start_threads env (suc rounds) i ts = load (get_elem? ts i) >>= λ t. elim (env.kthread_run i) [
  | some e ↦ done (start_failed i t e)
  | none ↦ start_threads env rounds (i + 1) ts >>= λ rest.
      done (put_before (record (fresh_thread i t) { thread = task }) rest)
]

-- The loop that stops them: only NULL is skipped, and an error pointer is no task.
pub stop_threads : Environment → List KioThread → Exec (List KioThread)
stop_threads env [] = done []
stop_threads env (th ∷ ths) = elim th.thread [
  | null ↦ stop_threads env ths >>= λ rest. done (th ∷ rest)
  | task ↦ stop_threads env ths >>= λ rest. done (env.stopped th ∷ rest)
  | err_ptr e ↦ fault
]

-- The return value, none for 0 and otherwise the error; `kio_running`; and the summary.
pub record Outcome : Type 0 where
  pub result : Option ℕ
  pub kio_running : Bool
  pub report : Option Report

abbrev pub summary : Option ℕ → List KioThread → Option Report
summary none ths = some (kio_run_stats_total (sum_stats ths no_stats))
summary (some e) ths = none

-- From the label-free middle of the function on: stop, clear `kio_running`, and report.
stop_and_report : Environment → Option ℕ → List KioThread → Exec Outcome
stop_and_report env result ths = stop_threads env ths >>= λ ths'.
    done (record { result = result; kio_running = false; report = summary result ths' })

abbrev after_start : Environment → Started → Exec Outcome
after_start env (first_failed e) =
    done (record { result = some e; kio_running = true; report = none })
after_start env (later_failed ths e) = stop_and_report env (some e) ths
after_start env (started ths) =
    stop_and_report env (if env.emergency_stop then some eintr else none) ths

pub kio_run : Environment → KioConfig → (kio_running : Bool) → Exec Outcome
kio_run env kc kio_running = check_block_sizes kc.num_threads 0 (cells kc.threads) >>= λ good.
    if not good
    then done (record { result = some erange; kio_running = kio_running; report = none })
    else if not env.memory
    then done (record { result = some enomem; kio_running = true; report = none })
    else (start_threads env kc.num_threads 0 (cells kc.threads) >>= after_start env)
