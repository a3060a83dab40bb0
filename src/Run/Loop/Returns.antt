-- ===== src/Run/Loop/Returns.antt =====
-- Why `kio_thread_fn` of driver/kio_run.c returns.
use kernel_io.Common.{ℕ, ◌≤◌, ◌≡◌, ◌⊎◌, true, false, some, arith, enomem}
use kernel_io.Config.Types.{KioThreadConfig}
use kernel_io.Io.Device.{KioIo}
use kernel_io.Run.Loop.{
  Pc, drain, finished, LoopState, Step, stop_at_top, enter, too_busy, has_room, wake, stop_woken,
  go_woken, no_page, new_page, chosen, no_wait, burst_over, stop_settling, dispatched, submitted,
  submit_failed, no_signal, interrupted, drained, completion, kthread_stop, signalled, is_error,
  Reach, start, next,
}
use kernel_io.Run.Loop.Safety.{finished_quiet}

-- The thread has been asked to stop; or its `result` is an error, and there was a signal, no page,
-- or a submission that failed.
abbrev Reason : LoopState → Type 0
Reason s =
    (s.should_stop ≡ true)
    ⊎ (is_error s.failed ≡ true) × ((s.signal ≡ true) ⊎ (s.failed ≡ some enomem) ⊎ (1 ≤ s.refused))

-- Behind the loop there is a reason, and a return has told the run of an error.
abbrev Behind : Pc → LoopState → Type 0
Behind drain s = Reason s
Behind finished s = Reason s × ((s.should_stop ≡ true) ⊎ (s.emergency_stop ≡ true))
Behind _ s = Unit

Step-Behind : {io : KioIo} {s s' : LoopState} → Step io s s' → Behind s.pc s → Behind s'.pc s'
Step-Behind (stop_at_top p b) v = ground arith
Step-Behind (enter p b) v = ground arith
Step-Behind (too_busy p b) v = ground arith
Step-Behind (has_room p b) v = ground arith
Step-Behind (wake p b) v = ground arith
Step-Behind (stop_woken p b) v = ground arith
Step-Behind (go_woken p b) v = ground arith
Step-Behind (no_page p) v = ground arith
Step-Behind (new_page p) v = ground arith
Step-Behind (chosen d p) v = ground arith
Step-Behind (no_wait q p b) v = ground arith
Step-Behind (burst_over q p b w g) v = ground arith
Step-Behind (stop_settling q p b w g) v = ground arith
Step-Behind (dispatched q p) v = ground arith
Step-Behind (submitted q n p) v = ground arith
Step-Behind (submit_failed q e p) v = ground arith
Step-Behind (no_signal p b) v = ground arith
Step-Behind (interrupted p b) v = ground arith
Step-Behind (drained r p b) v = ground arith
Step-Behind (completion n p) v = ground arith
Step-Behind kthread_stop v = ground arith
Step-Behind signalled v = ground arith

Reach-Behind :
    {io : KioIo} {i : ℕ} {t : KioThreadConfig} {s : LoopState} → Reach io i t s → Behind s.pc s
Reach-Behind start = tt
Reach-Behind (next r st) = Step-Behind st (Reach-Behind r)

-- For a queue depth from 1 to 1024: a thread that has returned without having been asked to stop
-- has set emergency_stop and returns an error, and either a signal is pending or the error is
-- ENOMEM.
pub returned_unasked :
    {io : KioIo} {i : ℕ} {t : KioThreadConfig} {s : LoopState}
    → 1 ≤ t.queue_depth
    → t.queue_depth ≤ 1024
    → Reach io i t s
    → s.pc ≡ finished
    → s.should_stop ≡ false
    → (s.emergency_stop ≡ true)
      × (is_error s.failed ≡ true)
      × ((s.signal ≡ true) ⊎ (s.failed ≡ some enomem))
returned_unasked {s = s} deep fits r p unasked =
    let v = Reach-Behind r in let quiet = finished_quiet deep fits r p in ground (arith, v, quiet)
