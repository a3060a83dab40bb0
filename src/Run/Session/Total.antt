-- ===== src/Run/Session/Total.antt =====
-- A run of threads that all start never faults.
use kernel_io.Common.{
  ℕ, ◌≡◌, sym, refl, inl, inr, Bool-cases, Bool, true, false, none, some, List, [], ◌∷◌, ◌++◌,
  arith, length, get_elem?-append, length-snoc, done, eintr, enomem, erange, if◌then◌else◌, ◌==◌,
}
use mathlib.Core.List.{map, append_assoc}
use kernel_io.Config.Types.{KioThreadConfig, KioConfig, IsAllocated, cells}
use kernel_io.Run.Session.{
  Environment, check_block_sizes, start_threads, started, stop_and_report, summary, Outcome,
  kio_run,
}
use kernel_io.Run.Session.Outcomes.{tasks, start_threads-tasks, stop_threads-tasks}

check_block_sizes-total :
    (before ts : List KioThreadConfig)
    → (good : Bool) × (check_block_sizes (length ts) (length before) (before ++ ts) ≡ done good)
unfolding check_block_sizes
check_block_sizes-total before [] = (true, refl)
check_block_sizes-total before (t ∷ ts) =
    let (good, run) = check_block_sizes-total (before ++ t ∷ []) ts in
    let run' = rw (length-snoc before t, append_assoc before (t ∷ []) ts) at run in
    elim (Bool-cases (t.block_size == 4096)) [
      | inl page ↦ (good, rw (get_elem?-append before t ts) (ground (arith, run')))
      | inr other ↦ (false, rw (get_elem?-append before t ts) (ground arith))
    ]

pub kio_run-total :
    (env : Environment) (kc : KioConfig) (ts : List KioThreadConfig) (running : Bool)
    → IsAllocated kc ts
    → ((i : ℕ) → env.kthread_run i ≡ none)
    → (r : Outcome) × (kio_run env kc running ≡ done r)
unfolding kio_run stop_and_report
kio_run-total env kc ts running a all_start =
    let (good, checked) = check_block_sizes-total [] ts in
    let check : check_block_sizes kc.num_threads 0 (cells kc.threads) ≡ done good =
      rw (a.allocated, sym a.counted) checked in
    let run : start_threads env kc.num_threads 0 (cells kc.threads) ≡ done (started (tasks 0 ts)) =
      rw (a.allocated, sym a.counted) (start_threads-tasks env [] ts all_start) in
    elim (Bool-cases good) [
      | inr other ↦
          (record { result = some erange; kio_running = running; report = none }, ground arith)
      | inl pages ↦ elim (Bool-cases env.memory) [
        | inr no_memory ↦
            (record { result = some enomem; kio_running = true; report = none }, ground arith)
        | inl memory ↦
            let result = if env.emergency_stop then some eintr else none in
            (
              record {
                result = result;
                kio_running = false;
                report = summary result (map env.stopped (tasks 0 ts));
              },
              ground (arith, stop_threads-tasks env 0 ts),
            )
      ]
    ]
