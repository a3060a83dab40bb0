-- ===== src/Tests/Teardowns.antt =====
-- A thread that is stopped with a bio in flight.
use kernel_io.Common.{◌+◌, ◌^◌, ◌≤◌, ◌≡◌, inl, refl, [], ◌∷◌, true, false, arith, u32, u64}
use kernel_io.Config.Types.{KioThreadConfig}
use kernel_io.Config.Valid.Thread.{capped}
use kernel_io.Run.Completion.{kio_thread_too_busy}
use kernel_io.Run.Thread.{KioThread, fresh_thread}
use kernel_io.Run.Requests.{Request, next_request}
use kernel_io.Run.Requests.Safety.{next_request_frame}
use kernel_io.Run.Loop.{
  Pc, LoopState, start_loop, Reach, enter, has_room, new_page, chosen, no_wait, dispatched,
  submitted, no_signal, stop_at_top, kthread_stop, drained, leave,
}
use kernel_io.Run.Teardown.{Fine, FineReach, start, next, thread, begin, begin_completion, kfree}
use kernel_io.Run.Teardown.Refines.{coarse, fine_refines_coarse}
use kernel_io.Run.Teardown.Free.{freed_quiet, freed_under_completion}
use kernel_io.Run.Teardown.Report.{FineThread, fine_submissions, report_misses_late}
use kernel_io.Run.Stats.{no_stats, sum_stats, kio_run_stats_total}
use kernel_io.Tests.Data.{device, sequential, draw}

abbrev settings : KioThreadConfig
settings = capped (2 ^ 30) sequential

abbrev loop : LoopState
loop = start_loop (fresh_thread 0 settings)

abbrev request : Request × KioThread
request = next_request device (draw 3) loop.th

-- A bio is in flight, the thread has been asked to stop, and stands in its last wait.
abbrev stopping : LoopState
stopping = record loop {
  th = record request.1 {
    dispatched = u32 (request.1.dispatched + 1);
    slat_total = u64 (request.1.slat_total + 700);
  };
  pc = Pc.drain;
  inflight = 1;
  pages = 1;
  should_stop = true;
}

abbrev fine : LoopState → Fine
fine l = record { loop = l; late = 0; waking = 0; freed = false }

-- The steps of the thread up to there.
stopping-Reach : FineReach device 0 settings (fine stopping)
unfolding kio_thread_too_busy
stopping-Reach =
    next
      (next
        (next
          (next
            (next
              (next
                (next
                  (next
                    (next (next start (thread (enter refl refl) tt))
                      (thread (has_room refl refl) tt))
                    (thread (new_page refl) tt))
                  (thread (chosen (draw 3) refl) tt))
                (thread
                  (no_wait request.0 refl
                    (rw ((next_request_frame device (draw 3) loop.th).0) refl))
                  tt))
              (thread (dispatched request.0 refl) tt))
            (thread (submitted request.0 700 refl) tt))
          (thread (no_signal refl refl) tt))
        (thread kthread_stop tt))
      (thread (stop_at_top refl refl) tt)

fine_refines_coarse_example :
    Reach device 0 settings (coarse (fine stopping)) × (0 ≤ stopping.pages)
fine_refines_coarse_example = fine_refines_coarse (omega arith) (omega arith) stopping-Reach

freed_under_completion_example :
    (f : Fine) × FineReach device 0 settings f × (f.freed ≡ true) × (f.late ≡ 1)
freed_under_completion_example =
    freed_under_completion (omega arith) (omega arith) (fine stopping) stopping-Reach refl refl

-- The one that the theorem above promises.
abbrev freed : Fine
freed = record { loop = leave 0 (begin_completion 0 stopping); late = 1; waking = 0; freed = true }

freed-Reach : FineReach device 0 settings freed
freed-Reach =
    next
      (next (next stopping-Reach (begin 0 (omega arith))) (
        thread
          (drained 0 refl (inl (omega (arith, (next_request_frame device (draw 3) loop.th).1))))
          tt))
      (kfree refl)

freed_quiet_example :
    (freed.loop.inflight ≡ 0)
    × (freed.loop.th.dispatched ≡ 0)
    × (freed.loop.pages ≡ freed.late + freed.waking)
freed_quiet_example = freed_quiet (omega arith) (omega arith) freed-Reach refl refl

-- Its bio has not been counted when the summary is made.
abbrev freed_thread : FineThread device
freed_thread = record { index = 0; config = settings; fine = freed; reached = freed-Reach }

report_misses_late_example :
    u32 ((kio_run_stats_total (sum_stats (freed.loop.th ∷ []) no_stats)).cnt + (1 + 0))
    ≡ u32 (fine_submissions freed-Reach + 0)
report_misses_late_example =
    report_misses_late device (freed_thread ∷ []) ((omega arith, omega arith), tt) (refl, tt)
      (refl, tt)
