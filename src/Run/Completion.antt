-- ===== src/Run/Completion.antt =====
-- `kio_bio_completion`, `kio_thread_busy`, `kio_thread_too_busy` and the pause after a request,
-- of driver/kio_run.c.
pub mod Pauses
use kernel_io.Common.{ℕ, ◌+◌, ◌-◌, ◌^◌, Bool, ◌&&◌, ◌||◌, leb, ◌==◌, if◌then◌else◌, not, u32, u64}
use kernel_io.Config.Types.{KioThreadConfig}
use kernel_io.Run.Thread.{KioThread}
use kernel_io.Run.Dir.{Dir}

-- The counters after the completion of a bio with the given latency; the bio's page is freed.
unfoldable pub kio_bio_completion : (clat_nsec : ℕ) → KioThread → KioThread
kio_bio_completion clat_nsec th = record th {
  clat_total = u64 (th.clat_total + clat_nsec);
  dispatched = u32 (th.dispatched + 2 ^ 32 - 1);
  completed = u32 (th.completed + 1);
}

unfoldable pub kio_thread_busy : KioThread → ℕ
kio_thread_busy th = th.dispatched

unfoldable pub kio_thread_too_busy : KioThread → Bool
kio_thread_too_busy th = not (th.config.queue_depth == 0) && leb th.config.queue_depth th.dispatched

-- How a thread pauses after a request.
pub data Pause : Type 0 where
  no_pause : Pause
  schedule_timeout : (jiffies : ℕ) → Pause
  udelay : (usec : ℕ) → Pause

-- `usecs_to_jiffies` is the kernel's.
pub pause_after : (usecs_to_jiffies : ℕ → ℕ) → KioThreadConfig → Dir → Pause
pause_after usecs_to_jiffies ktc dir =
    let sleep_usec = if dir.is_write then ktc.write_sleep_usec else ktc.read_sleep_usec in
    let hz = usecs_to_jiffies sleep_usec in
    if sleep_usec == 0
    then no_pause
    else if ktc.burst_delay == 0 || dir.dir_changed
    then (if hz == 0 then udelay ktc.read_sleep_usec else schedule_timeout hz)
    else no_pause
