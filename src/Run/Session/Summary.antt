-- ===== src/Run/Session/Summary.antt =====
-- The summary of a run counts each request that was submitted once.
use kernel_io.Common.{
  sum_of, ℕ, ◌+◌, ◌≤◌, ◌≡◌, ◌∙◌, refl, ap, Bool, true, false, none, some, List, [], ◌∷◌, arith, All,
  done, u32,
}
use mathlib.Core.List.{map}
use kernel_io.Config.Types.{KioThreadConfig, KioConfig, IsAllocated}
use kernel_io.Io.Device.{KioIo}
use kernel_io.Run.Thread.{KioThread, task}
use kernel_io.Run.Loop.{finished, LoopState, Reach}
use kernel_io.Run.Loop.Counts.{submissions, finished_counts}
use kernel_io.Run.Stats.{Report, no_stats, sum_stats, kio_run_stats_total}
use kernel_io.Run.Stats.Totals.{sum_stats_lem}
use kernel_io.Run.Session.{Environment, kio_run}
use kernel_io.Run.Session.Outcomes.{OnePage, tasks, kio_run_completes}

-- What `kthread_stop` leaves of thread `i`: its function has returned, with no signal pending.
pub record Returned (io : KioIo) (i : ℕ) (t : KioThreadConfig) (th : KioThread) : Type 0 where
  pub state : LoopState
  pub reached : Reach io i t state
  pub over : state.pc ≡ finished
  pub quiet : state.signal ≡ false
  pub left : th ≡ record state.th { thread = task }

-- The same of the threads from `i` on, each with a queue depth that validation accepts.
abbrev pub AllReturned : KioIo → (i : ℕ) → List KioThreadConfig → List KioThread → Type 0
AllReturned io i [] [] = Unit
AllReturned io i (t ∷ ts) (th ∷ ths) =
    (1 ≤ t.queue_depth)
    × (t.queue_depth ≤ 1024)
    × Returned io i t th
    × AllReturned io (i + 1) ts ths
AllReturned io i _ _ = ⊥

-- How many requests they have submitted with success.
pub submitted_by :
    (io : KioIo) (i : ℕ) (ts : List KioThreadConfig) (ths : List KioThread)
    → AllReturned io i ts ths
    → ℕ
submitted_by io i [] [] a = 0
submitted_by io i (t ∷ ts) (th ∷ ths) (low, high, r, a) =
    submissions r.reached + submitted_by io (i + 1) ts ths a
submitted_by io i [] (th ∷ ths) a = absurd a
submitted_by io i (t ∷ ts) [] a = absurd a

completed_by :
    (io : KioIo) (i : ℕ) (ts : List KioThreadConfig) (ths : List KioThread)
    (a : AllReturned io i ts ths)
    → u32 (sum_of (λ th. th.completed) ths) ≡ u32 (submitted_by io i ts ths a)
unfolding submitted_by
completed_by io i [] [] a = refl
completed_by io i (t ∷ ts) (th ∷ ths) (low, high, r, a) =
    let (count, slat, clat) = finished_counts low high r.reached r.over r.quiet in
    let own : th.completed ≡ r.state.th.completed = ap (λ u. u.completed) r.left in
    omega (arith, completed_by io (i + 1) ts ths a)
completed_by io i [] (th ∷ ths) a = absurd a
completed_by io i (t ∷ ts) [] a = absurd a

pub summary_cnt :
    (ths : List KioThread)
    → (kio_run_stats_total (sum_stats ths no_stats)).cnt ≡ u32 (sum_of (λ th. th.completed) ths)
unfolding kio_run_stats_total
summary_cnt ths =
    let (num, dispatched, completed, slat, clat, bps, runtime) = sum_stats_lem ths no_stats in
    omega arith

-- For an allocated configuration with blocks of one page: if there is memory, every thread
-- starts, the run is not interrupted, and each kthread_stop leaves a thread whose loop has come
-- to its return with no signal pending, with a queue depth from 1 to 1024, then kio_run returns
-- 0, clears kio_running, and reports as many completed requests as the threads have submitted
-- with success, modulo 2 ^ 32.
pub run_summary_counts :
    (env : Environment) (io : KioIo) (kc : KioConfig) (ts : List KioThreadConfig) (running : Bool)
    → IsAllocated kc ts
    → All OnePage ts
    → env.memory ≡ true
    → ((i : ℕ) → env.kthread_run i ≡ none)
    → env.emergency_stop ≡ false
    → (a : AllReturned io 0 ts (map env.stopped (tasks 0 ts)))
    → (report : Report) × (kio_run env kc running
        ≡ done (record { result = none; kio_running = false; report = some report }))
      × (report.cnt ≡ u32 (submitted_by io 0 ts (map env.stopped (tasks 0 ts)) a))
run_summary_counts env io kc ts running alloc pages memory all_start calm a = (
  kio_run_stats_total (sum_stats (map env.stopped (tasks 0 ts)) no_stats),
  ground (arith, kio_run_completes env kc ts alloc pages running memory all_start),
  summary_cnt (map env.stopped (tasks 0 ts))
      ∙ completed_by io 0 ts (map env.stopped (tasks 0 ts)) a,
)
