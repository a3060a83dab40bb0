-- ===== src/Tests/Unloads.antt =====
-- The device closed while a thread is about to submit.
use kernel_io.Common.{
  ◌≡◌, ◌≢◌, ◌⊎◌, refl, true, some, none, [], ◌∷◌, arith, All, All-get_elem?, ◌<◌, ◌^◌, done, einval,
}
use kernel_io.Io.Open.{Dev, no_device, closed, bio_set_up, bio_set_released, opened, kio_io_exit}
use kernel_io.Io.Submit.Outcomes.{kio_io_submit_refused}
use kernel_io.Main.Unload.{none_after_unload, unloaded_run_hangs}
use kernel_io.Run.Loop.{drain, LoopState, submit_failed}
use kernel_io.Run.Loop.Closed.{Committed}
use kernel_io.Run.Loop.Requests.{Reach-Sound}
use kernel_io.Run.Offset.OnDevice.{Runnable}
use kernel_io.Run.System.{returned, System, SystemSteps, none_yet, and_then, thread}
use kernel_io.Run.System.Closed.{AllAnswered, submissions_among}
use kernel_io.Run.System.Threads.{Deep, SystemReach-Reach}
use kernel_io.Tests.Data.{device}
use kernel_io.Tests.Life.{block}
use kernel_io.Tests.Overlaps.{settings}
use kernel_io.Tests.Submissions.{layer}
use kernel_io.Tests.Systems.{request, waits, about_to_submit, submitting, submitting-SystemReach}

abbrev opened_dev : Dev
opened_dev = record { io = device; events = bio_set_up ∷ opened 0 ∷ [] }

abbrev closed_dev : Dev
closed_dev = record { io = no_device; events = closed 0 ∷ bio_set_released ∷ opened_dev.events }

closing : kio_io_exit block opened_dev ≡ done closed_dev
unfolding kio_io_exit
closing = refl

abbrev failing : LoopState
failing = record about_to_submit { pc = drain; refused = 1; failed = some einval }

abbrev stuck : System
stuck = record submitting { loops = failing ∷ [] }

abbrev fails : SystemSteps closed_dev.io (settings ∷ []) submitting stuck
fails = and_then none_yet (thread 0 waits refl (submit_failed request.0 einval refl) tt)

settings-Deep : All Deep (settings ∷ [])
settings-Deep = ((omega arith, omega arith), tt)

settings-Runnable : All (Runnable device.dev_byte_size) (settings ∷ [])
settings-Runnable = (
  record {
    low_below_high = omega arith;
    high_on_device = omega arith;
    high_nonneg = omega arith;
    one_page = refl;
    stride_min = omega arith;
    stride_max = omega arith;
  },
  tt,
)

offset_small : request.0.offset < 2 ^ 63
offset_small =
    let (t, config, r) =
      SystemReach-Reach device (settings ∷ []) submitting-SystemReach 0 about_to_submit refl in
    let can_run =
      All-get_elem? (Runnable device.dev_byte_size) (settings ∷ []) 0 settings-Runnable config in
    (Reach-Sound (omega arith) can_run r).holds.1

fails-AllAnswered : AllAnswered fails
fails-AllAnswered = (
  tt,
  (
    0,
    layer,
    5,
    [],
    kio_io_submit_refused no_device 0 layer request.0.offset offset_small 5 request.0.dir.is_write
        refl,
  ),
)

none_after_unload_example : submissions_among fails ≡ 0
none_after_unload_example =
    none_after_unload block opened_dev closed_dev (settings ∷ []) settings-Deep settings-Runnable
      (omega arith) submitting-SystemReach closing fails fails-AllAnswered

unloaded_run_hangs_example :
    (stuck.pc ≢ returned)
    × (stuck.kio_running ≡ true)
    × (stuck.report ≡ none)
    × (Committed failing.pc ⊎ ((failing.pc ≡ drain) × (failing.th.dispatched ≢ 0)))
unloaded_run_hangs_example =
    unloaded_run_hangs block opened_dev closed_dev (settings ∷ []) settings-Deep settings-Runnable
      (omega arith) submitting-SystemReach closing fails fails-AllAnswered 0 about_to_submit failing
      refl tt refl refl
