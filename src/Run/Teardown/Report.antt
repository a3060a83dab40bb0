-- ===== src/Run/Teardown/Report.antt =====
-- What the summary of a run counts, with the completions in steps: a thread may have returned, and be
-- summed up, while completions that have decremented its count have still to be counted.
use kernel_io.Common.{sum_of, ℕ, ◌+◌, ◌≡◌, refl, false, arith, List, [], ◌∷◌, All, u32}
use mathlib.Core.List.{map}
use kernel_io.Config.Types.{KioThreadConfig}
use kernel_io.Io.Device.{KioIo}
use kernel_io.Run.Stats.{no_stats, sum_stats, kio_run_stats_total}
use kernel_io.Run.Session.Summary.{summary_cnt}
use kernel_io.Run.Loop.{finished}
use kernel_io.Run.Loop.Safety.{finished_quiet}
use kernel_io.Run.Loop.Counts.{submits, Step-Moves}
use kernel_io.Run.System.Threads.{Deep}
use kernel_io.Run.Teardown.{Fine, thread, begin, count, wake_up, kfree, FineReach, start, next}
use kernel_io.Run.Teardown.Refines.{fine_refines_coarse}

-- The submissions of a thread that have succeeded.
module _ {io : KioIo} {i : ℕ} {t : KioThreadConfig} where
  pub fine_submissions : {f : Fine} → FineReach io i t f → ℕ
  fine_submissions start = 0
  fine_submissions (next r (thread st o)) = fine_submissions r + submits st
  fine_submissions (next r _) = fine_submissions r

  -- Each is completed, or in flight, or begun to complete and not yet counted.
  fine_counts :
      {f : Fine} (r : FineReach io i t f)
      → u32 (f.loop.th.completed + f.late + f.loop.inflight) ≡ u32 (fine_submissions r)
  unfolding fine_submissions
  fine_counts start = refl
  fine_counts (next r (thread st o)) =
      let m = Step-Moves st in omega (arith, fine_counts r, m.count)
  fine_counts (next r (begin n busy)) = omega (arith, fine_counts r)
  fine_counts (next r (count late)) = omega (arith, fine_counts r)
  fine_counts (next r (wake_up waking)) = omega (arith, fine_counts r)
  fine_counts (next r (kfree over)) = omega (arith, fine_counts r)

-- A thread of a run, and how it has come to where it is.
pub record FineThread (io : KioIo) : Type 0 where
  pub index : ℕ
  pub config : KioThreadConfig
  pub fine : Fine
  pub reached : FineReach io index config fine

module _ (io : KioIo) where
  returned_counts :
      (x : FineThread io)
      → Deep x.config
      → x.fine.loop.pc ≡ finished
      → x.fine.loop.signal ≡ false
      → u32 (x.fine.loop.th.completed + x.fine.late) ≡ u32 (fine_submissions x.reached)
  returned_counts x (low, high) over quiet =
      let coarse_reached = (fine_refines_coarse low high x.reached).0 in
      let idle = (finished_quiet low high coarse_reached over quiet).0 in
      omega (arith, fine_counts x.reached, idle)

  counts_of :
      (xs : List (FineThread io))
      → All (λ x. Deep x.config) xs
      → All (λ x. x.fine.loop.pc ≡ finished) xs
      → All (λ x. x.fine.loop.signal ≡ false) xs
      → u32 (
          sum_of (λ th. th.completed) (map (λ x. x.fine.loop.th) xs) + sum_of (λ x. x.fine.late) xs)
        ≡ u32 (sum_of (λ x. fine_submissions x.reached) xs)
  counts_of [] deep over quiet = refl
  counts_of (x ∷ xs) (d, deep) (o, over) (q, quiet) =
      omega (arith, returned_counts x d o q, counts_of xs deep over quiet)

  -- For threads with queue depths from 1 to 1024 that have returned with no signal pending, whose
  -- completions run in steps: the number of completed requests that the summary reports, together
  -- with the completions that have decremented the count of dispatched requests and not yet been
  -- counted, is the number of submissions of these threads that have succeeded, modulo 2 ^ 32.
  pub report_misses_late :
      (xs : List (FineThread io))
      → All (λ x. Deep x.config) xs
      → All (λ x. x.fine.loop.pc ≡ finished) xs
      → All (λ x. x.fine.loop.signal ≡ false) xs
      → u32 (
          (kio_run_stats_total (sum_stats (map (λ x. x.fine.loop.th) xs) no_stats)).cnt
          + sum_of (λ x. x.fine.late) xs)
        ≡ u32 (sum_of (λ x. fine_submissions x.reached) xs)
  report_misses_late xs deep over quiet =
      omega (arith, summary_cnt (map (λ x. x.fine.loop.th) xs), counts_of xs deep over quiet)
