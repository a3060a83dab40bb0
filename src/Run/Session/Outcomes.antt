-- ===== src/Run/Session/Outcomes.antt =====
-- How a run ends: as it should, with `kio_running` left set, or with a fault.
use kernel_io.Common.{
  ℕ, ◌+◌, ◌≤◌, ◌<◌, ◌≡◌, ◌≢◌, ◌⊎◌, inl, inr, Option-cases, Bool-cases, sym, ap, refl, Bool, true,
  false, none, some, List, [], ◌∷◌, ◌++◌, arith, length, get_elem?-append, length-snoc, All, done,
  fault, if◌then◌else◌, eintr, enomem,
}
use mathlib.Core.List.{map, append_assoc}
use kernel_io.Config.Types.{KioThreadConfig, KioConfig, IsAllocated, cells}
use kernel_io.Run.Thread.{KioThread, task, err_ptr, fresh_thread}
use kernel_io.Run.Stats.{no_stats, sum_stats, kio_run_stats_total}
use kernel_io.Run.Session.{
  Environment, check_block_sizes, started, first_failed, later_failed, start_threads, stop_threads,
  stop_and_report, kio_run,
}

abbrev pub OnePage : KioThreadConfig → Type 0
OnePage t = t.block_size ≡ 4096

pub check_block_sizes-true :
    (before ts : List KioThreadConfig)
    → All OnePage ts
    → check_block_sizes (length ts) (length before) (before ++ ts) ≡ done true
unfolding check_block_sizes
check_block_sizes-true before [] h = refl
check_block_sizes-true before (t ∷ ts) h =
    let ih =
      rw (length-snoc before t, append_assoc before (t ∷ []) ts) at
        (check_block_sizes-true (before ++ t ∷ []) ts h.1) in
    rw (get_elem?-append before t ts) (ground arith)

-- The threads of a run, all started.
unfoldable pub tasks : (i : ℕ) → List KioThreadConfig → List KioThread
tasks i [] = []
tasks i (t ∷ ts) = record (fresh_thread i t) { thread = task } ∷ tasks (i + 1) ts

module _ (env : Environment) where
  pub start_threads-tasks :
      (before ts : List KioThreadConfig)
      → ((i : ℕ) → env.kthread_run i ≡ none)
      → start_threads env (length ts) (length before) (before ++ ts)
        ≡ done (started (tasks (length before) ts))
  unfolding start_threads tasks
  start_threads-tasks before [] h = refl
  start_threads-tasks before (t ∷ ts) h =
      let ih =
        rw (length-snoc before t, append_assoc before (t ∷ []) ts) at
          (start_threads-tasks (before ++ t ∷ []) ts h) in
      rw (get_elem?-append before t ts) (ground (arith, h (length before)))

  pub stop_threads-tasks :
      (i : ℕ) (ts : List KioThreadConfig)
      → stop_threads env (tasks i ts) ≡ done (map env.stopped (tasks i ts))
  unfolding stop_threads tasks
  stop_threads-tasks i [] = refl
  stop_threads-tasks i (t ∷ ts) = rw (stop_threads-tasks (i + 1) ts)

  -- Some thread could not be started, and the threads cannot be stopped.
  abbrev FailsLater : List KioThreadConfig → List KioThreadConfig → Type 0
  FailsLater before ts =
      (ths : List KioThread) × (e : ℕ) × (start_threads env (length ts) (length before)
          (before ++ ts)
        ≡ done (later_failed ths e))
      × (stop_threads env ths ≡ fault)

  fails_here :
      (before : List KioThreadConfig) (t : KioThreadConfig) (ts : List KioThreadConfig) (e : ℕ)
      → 0 < length before
      → env.kthread_run (length before) ≡ some e
      → FailsLater before (t ∷ ts)
  unfolding start_threads stop_threads
  fails_here before t ts e pos bad = (
    record (fresh_thread (length before) t) { thread = err_ptr e } ∷ [],
    e,
    rw (get_elem?-append before t ts) (ground arith),
    refl,
  )

  fails_behind :
      (before : List KioThreadConfig) (t : KioThreadConfig) (ts : List KioThreadConfig)
      → env.kthread_run (length before) ≡ none
      → FailsLater (before ++ t ∷ []) ts
      → FailsLater before (t ∷ ts)
  unfolding start_threads stop_threads
  fails_behind before t ts good (ths, e, run, faults) = (
    record (fresh_thread (length before) t) { thread = task } ∷ ths,
    e,
    rw (get_elem?-append before t ts) (
        let run' = rw (length-snoc before t, append_assoc before (t ∷ []) ts) at run in
        ground arith),
    rw faults,
  )

  -- Behind the first thread, one that cannot be started leaves an error pointer among the tasks.
  start_threads-err_ptr :
      (before ts : List KioThreadConfig) (j e : ℕ)
      → 0 < length before
      → length before ≤ j
      → j < length before + length ts
      → env.kthread_run j ≡ some e
      → FailsLater before ts
  start_threads-err_ptr before [] j e pos low high failed = absurd (omega arith)
  start_threads-err_ptr before (t ∷ ts) j e pos low high failed =
      elim (Option-cases (env.kthread_run (length before))) [
        | inr (e', bad) ↦ fails_here before t ts e' pos bad
        | inl good ↦
            let apart : length before ≢ j = λ same. cc (ap env.kthread_run same) in
            let longer = length-snoc before t in
            fails_behind before t ts good (
              start_threads-err_ptr (before ++ t ∷ []) ts j e (omega arith) (omega arith)
                (omega arith) failed)
      ]

  start_first_fails :
      (ts : List KioThreadConfig) (e : ℕ)
      → 0 < length ts
      → env.kthread_run 0 ≡ some e
      → start_threads env (length ts) 0 ts ≡ done (first_failed e)
  unfolding start_threads
  start_first_fails [] e pos failed = absurd (omega arith)
  start_first_fails (t ∷ ts) e pos failed = ground arith

  start_later_fails :
      (ts : List KioThreadConfig) (j e : ℕ)
      → env.kthread_run 0 ≡ none
      → 0 < j
      → j < length ts
      → env.kthread_run j ≡ some e
      → (ths : List KioThread) × (e' : ℕ) × (start_threads env (length ts) 0 ts
          ≡ done (later_failed ths e'))
        × (stop_threads env ths ≡ fault)
  unfolding start_threads stop_threads
  start_later_fails [] j e first pos lt failed = absurd (omega arith)
  start_later_fails (t ∷ ts) j e first pos lt failed =
      let (ths, e', run, faults) =
        start_threads-err_ptr (t ∷ []) ts j e (omega arith) (omega arith) (omega arith) failed in
      (record (fresh_thread 0 t) { thread = task } ∷ ths, e', ground arith, ground arith)

  module _ (kc : KioConfig) (ts : List KioThreadConfig) (a : IsAllocated kc ts)
      (pages : All OnePage ts) (running : Bool) where
    checked : check_block_sizes kc.num_threads 0 (cells kc.threads) ≡ done true
    checked = rw (a.allocated, sym a.counted) (check_block_sizes-true [] ts pages)

    first_fails :
        (e : ℕ)
        → 0 < kc.num_threads
        → env.kthread_run 0 ≡ some e
        → start_threads env kc.num_threads 0 (cells kc.threads) ≡ done (first_failed e)
    first_fails e pos failed =
        rw (a.allocated, sym a.counted) (start_first_fails ts e (omega (arith, a.counted)) failed)

    later_fails :
        (j e : ℕ)
        → env.kthread_run 0 ≡ none
        → 0 < j
        → j < kc.num_threads
        → env.kthread_run j ≡ some e
        → (ths : List KioThread) × (e' : ℕ) × (start_threads env kc.num_threads 0 (cells kc.threads)
            ≡ done (later_failed ths e'))
          × (stop_threads env ths ≡ fault)
    later_fails j e first pos lt failed =
        rw (a.allocated, sym a.counted)
          (start_later_fails ts j e first pos (omega (arith, a.counted)) failed)

    -- For an allocated configuration with blocks of one page: if there is memory, every thread
    -- starts, and every kthread_stop returns, then kio_run clears kio_running and returns 0 with
    -- the summary of all the stopped threads, or EINTR without a summary if the run was
    -- interrupted.
    pub kio_run_completes :
        env.memory ≡ true
        → ((i : ℕ) → env.kthread_run i ≡ none)
        → kio_run env kc running
          ≡ done (record {
            result = if env.emergency_stop then some eintr else none;
            kio_running = false;
            report =
                if env.emergency_stop
                then none
                else some (kio_run_stats_total (sum_stats (map env.stopped (tasks 0 ts)) no_stats));
          })
    unfolding kio_run stop_and_report
    kio_run_completes memory all_start =
        let run : start_threads env kc.num_threads 0 (cells kc.threads)
            ≡ done (started (tasks 0 ts)) =
          rw (a.allocated, sym a.counted) (start_threads-tasks [] ts all_start) in
        ground (arith, checked, stop_threads-tasks 0 ts)

    -- For an allocated configuration of at least one thread with blocks of one page: if there is
    -- no memory for the threads or the first one cannot be started, then kio_run returns an error
    -- and leaves kio_running set.
    pub kio_run_stays_running :
        0 < kc.num_threads
        → (env.memory ≡ false) ⊎ ((e : ℕ) × (env.kthread_run 0 ≡ some e))
        → (e : ℕ) × (kio_run env kc running
            ≡ done (record { result = some e; kio_running = true; report = none }))
    unfolding kio_run
    kio_run_stays_running pos (inl no_memory) = (enomem, ground (arith, checked))
    kio_run_stays_running pos (inr (e, failed)) = elim (Bool-cases env.memory) [
      | inr no_memory ↦ (enomem, ground (arith, checked))
      | inl memory ↦ (e, ground (arith, checked, first_fails e pos failed))
    ]

    -- For an allocated configuration with blocks of one page: if there is memory, the first
    -- thread starts and a later one does not, then kio_run faults, since it hands an error
    -- pointer to kthread_stop.
    pub kio_run_stops_err_ptr :
        (j e : ℕ)
        → env.memory ≡ true
        → env.kthread_run 0 ≡ none
        → 0 < j
        → j < kc.num_threads
        → env.kthread_run j ≡ some e
        → kio_run env kc running ≡ fault
    unfolding kio_run stop_and_report
    kio_run_stops_err_ptr j e memory first pos lt failed =
        let (ths, e', run, faults) = later_fails j e first pos lt failed in ground (arith, checked)
