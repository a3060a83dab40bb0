-- ===== src/Run/Loop/Stays.antt =====
-- What stays so once it is so, whatever a thread does.
use kernel_io.Common.{◌≡◌, refl, true, arith}
use kernel_io.Io.Device.{KioIo}
use kernel_io.Run.Loop.{
  finished, LoopState, Step, stop_at_top, enter, too_busy, has_room, wake, stop_woken, go_woken,
  no_page, new_page, chosen, no_wait, burst_over, stop_settling, dispatched, submitted,
  submit_failed, no_signal, interrupted, drained, completion, kthread_stop, signalled,
}

-- A thread that has returned stays so.
pub Step-finished :
    {io : KioIo} {l l' : LoopState} → Step io l l' → l.pc ≡ finished → l'.pc ≡ finished
Step-finished (stop_at_top p b) f = ground arith
Step-finished (enter p b) f = ground arith
Step-finished (too_busy p b) f = ground arith
Step-finished (has_room p b) f = ground arith
Step-finished (wake p b) f = ground arith
Step-finished (stop_woken p b) f = ground arith
Step-finished (go_woken p b) f = ground arith
Step-finished (no_page p) f = ground arith
Step-finished (new_page p) f = ground arith
Step-finished (chosen d p) f = ground arith
Step-finished (no_wait q p b) f = ground arith
Step-finished (burst_over q p b w g) f = ground arith
Step-finished (stop_settling q p b w g) f = ground arith
Step-finished (dispatched q p) f = ground arith
Step-finished (submitted q n p) f = ground arith
Step-finished (submit_failed q e p) f = ground arith
Step-finished (no_signal p b) f = ground arith
Step-finished (interrupted p b) f = ground arith
Step-finished (drained r p b) f = refl
Step-finished (completion n p) f = f
Step-finished kthread_stop f = f
Step-finished signalled f = f

-- A thread that has been asked to stop stays so.
pub Step-should_stop :
    {io : KioIo} {l l' : LoopState} → Step io l l' → l.should_stop ≡ true → l'.should_stop ≡ true
Step-should_stop kthread_stop a = refl
Step-should_stop (stop_at_top p b) a = a
Step-should_stop (enter p b) a = a
Step-should_stop (too_busy p b) a = a
Step-should_stop (has_room p b) a = a
Step-should_stop (wake p b) a = a
Step-should_stop (stop_woken p b) a = a
Step-should_stop (go_woken p b) a = a
Step-should_stop (no_page p) a = a
Step-should_stop (new_page p) a = a
Step-should_stop (chosen d p) a = a
Step-should_stop (no_wait q p b) a = a
Step-should_stop (burst_over q p b w g) a = a
Step-should_stop (stop_settling q p b w g) a = a
Step-should_stop (dispatched q p) a = a
Step-should_stop (submitted q n p) a = a
Step-should_stop (submit_failed q e p) a = a
Step-should_stop (no_signal p b) a = a
Step-should_stop (interrupted p b) a = a
Step-should_stop (drained r p b) a = a
Step-should_stop (completion n p) a = a
Step-should_stop signalled a = a
