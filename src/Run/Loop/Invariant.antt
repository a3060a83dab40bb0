-- ===== src/Run/Loop/Invariant.antt =====
-- The counts of requests and pages, kept by every step.
use kernel_io.Common.{ℕ, ◌+◌, ◌≤◌, ◌≡◌, Bool, true, false, arith}
use kernel_io.Config.Types.{KioThreadConfig}
use kernel_io.Io.Device.{KioIo}
use kernel_io.Run.Completion.{kio_bio_completion, kio_thread_busy, kio_thread_too_busy}
use kernel_io.Run.Requests.Safety.{next_request_frame}
use kernel_io.Run.Loop.{
  Pc, top, throttle, waiting, woken, alloc, choose, settle, dispatch, submit, drain, finished,
  LoopState, Step, stop_at_top, enter, too_busy, has_room, wake, stop_woken, go_woken, no_page,
  new_page, chosen, no_wait, burst_over, stop_settling, dispatched, submitted, submit_failed,
  no_signal, interrupted, drained, completion, kthread_stop, signalled,
}

-- A request that is counted as dispatched and not yet handed to the kernel.
abbrev pub handing_over : Pc → ℕ
handing_over (submit _) = 1
handing_over _ = 0

-- A page that the thread holds itself.
abbrev pub holding : Pc → ℕ
holding choose = 1
holding (settle _) = 1
holding (dispatch _) = 1
holding (submit _) = 1
holding _ = 0

abbrev pub one_if : Bool → ℕ
one_if true = 1
one_if false = 0

-- How many requests may be dispatched: up to the depth of the queue; one less where the next step
-- may dispatch one more; and one more after a signal has ended a wait.
abbrev pub Bounded : Pc → (signal : Bool) → (dispatched depth : ℕ) → Type 0
Bounded top sig n depth = n ≤ depth
Bounded throttle sig n depth = n ≤ depth
Bounded waiting sig n depth = n ≤ depth
Bounded woken sig n depth = n + 1 ≤ depth + one_if sig
Bounded alloc sig n depth = n + 1 ≤ depth + one_if sig
Bounded choose sig n depth = n + 1 ≤ depth + one_if sig
Bounded (settle _) sig n depth = n + 1 ≤ depth + one_if sig
Bounded (dispatch _) sig n depth = n + 1 ≤ depth + one_if sig
Bounded _ sig n depth = n ≤ depth + one_if sig

-- A submission that failed has ended the loop, and the thread has not gone past the last wait
-- without a signal.
abbrev pub Ended : Pc → (signal : Bool) → (refused : ℕ) → Type 0
Ended drain sig refused = refused ≤ 1
Ended finished sig refused = refused ≤ one_if sig
Ended _ sig refused = refused ≡ 0

abbrev pub Quiet : Pc → (signal : Bool) → (inflight : ℕ) → Type 0
Quiet finished false inflight = inflight ≡ 0
Quiet _ _ _ = Unit

pub record Inv (t : KioThreadConfig) (s : LoopState) : Type 0 where
  pub same_config : s.th.config ≡ t
  pub counted : s.th.dispatched ≡ s.inflight + handing_over s.pc + s.refused
  pub paged : s.pages ≡ s.inflight + holding s.pc + s.refused
  pub bounded : Bounded s.pc s.signal s.th.dispatched t.queue_depth
  pub ended : Ended s.pc s.signal s.refused
  pub quiet : Quiet s.pc s.signal s.inflight

module _ (io : KioIo) (t : KioThreadConfig) (deep : 1 ≤ t.queue_depth)
    (fits : t.queue_depth ≤ 1024) where
  pub Step-Inv : {s s' : LoopState} → Step io s s' → Inv t s → Inv t s'
  unfolding kio_bio_completion kio_thread_busy kio_thread_too_busy
  Step-Inv (stop_at_top p b) v = ground arith
  Step-Inv (enter p b) v = ground arith
  Step-Inv (too_busy p b) v = ground arith
  Step-Inv (has_room p b) v = ground arith
  Step-Inv (wake p b) v = ground arith
  Step-Inv (stop_woken p b) v = ground arith
  Step-Inv (go_woken p b) v = ground arith
  Step-Inv (no_page p) v = ground arith
  Step-Inv (new_page p) v = ground arith
  Step-Inv {s} (chosen d p) v = ground (arith, next_request_frame io d s.th)
  Step-Inv (no_wait q p b) v = ground arith
  Step-Inv (burst_over q p b w g) v = ground arith
  Step-Inv (stop_settling q p b w g) v = ground arith
  Step-Inv (dispatched q p) v = ground arith
  Step-Inv (submitted q n p) v = ground arith
  Step-Inv (submit_failed q e p) v = ground arith
  Step-Inv (no_signal p b) v = ground arith
  Step-Inv (interrupted p b) v = ground arith
  Step-Inv (drained r p b) v = ground arith
  Step-Inv (completion n p) v = ground arith
  Step-Inv kthread_stop v = ground arith
  Step-Inv signalled v = ground arith
