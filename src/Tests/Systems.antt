-- ===== src/Tests/Systems.antt =====
-- A run with its threads at once: one thread that submits one request.
use kernel_io.Common.{
  ◌+◌, ◌≡◌, ◌≢◌, ◌⊎◌, ◌^◌, inl, refl, true, false, none, some, [], ◌∷◌, arith, All, done, u32, u64,
  enomem,
}
use kernel_io.Config.Types.{KioConfig, IsAllocated}
use kernel_io.Config.Valid.Verdict.{AcceptableConfig, kio_config_is_valid_complete}
use kernel_io.Io.Device.{kio_io_dev_byte_size}
use kernel_io.Io.Submit.{kio_io_submit}
use kernel_io.Io.Submit.Outcomes.{ComesTo, Filled}
use kernel_io.Run.Completion.{kio_thread_too_busy, kio_bio_completion}
use kernel_io.Run.Thread.{KioThread, fresh_thread}
use kernel_io.Run.Requests.{Request, next_request}
use kernel_io.Run.Requests.Safety.{next_request_frame}
use kernel_io.Run.Session.{summary, kio_run}
use kernel_io.Run.Loop.{
  Pc, drain, finished, LoopState, start_loop, leave, enter, has_room, new_page, chosen, no_wait,
  dispatched, submitted, submit_failed, no_signal, stop_at_top, drained, completion,
}
use kernel_io.Run.System.{
  waiting, joining, returned, System, start_run, settled, start_thread, all_started, wait_over, ask,
  join, finish, thread, SystemReach, start, next, SystemSteps, none_yet, and_then,
}
use kernel_io.Run.System.Refines.{environment_of, system_refines_kio_run}
use kernel_io.Run.System.Hangs.{refused_run_hangs}
use kernel_io.Run.System.Returns.{run_can_return}
use kernel_io.Run.System.Submissions.{run_submissions}
use kernel_io.Tests.Data.{power, device, draw}
use kernel_io.Tests.Submissions.{layer}
use kernel_io.Tests.Overlaps.{settings}

abbrev pub loop : LoopState
loop = start_loop (fresh_thread 0 settings)

abbrev pub request : Request × KioThread
request = next_request device (draw 3) loop.th

-- A bio is in flight, and the thread stands in its last wait.
abbrev stopping : LoopState
stopping = record loop {
  th = record request.1 {
    dispatched = u32 (request.1.dispatched + 1);
    slat_total = u64 (request.1.slat_total + 700);
  };
  pc = Pc.drain;
  inflight = 1;
  pages = 1;
  should_stop = true;
}

abbrev over : LoopState
over =
    leave 2000000000
      (record stopping { th = kio_bio_completion 90000 stopping.th; inflight = 0; pages = 0 })

abbrev single : KioConfig
single = record { runtime_seconds = 2; num_threads = 1; threads = some (settings ∷ []) }

pub waits : waiting ≢ returned
waits = λ e. cc

stops : joining 0 ≢ returned
stops = λ e. cc

-- The thread is about to submit its first request.
abbrev pub about_to_submit : LoopState
about_to_submit = record loop {
  th = record request.1 { dispatched = u32 (request.1.dispatched + 1) };
  pc = Pc.submit request.0;
  pages = 1;
}

abbrev pub submitting : System
submitting = record start_run { loops = about_to_submit ∷ []; pc = waiting }

pub submitting-SystemReach : SystemReach device (settings ∷ []) submitting
unfolding kio_thread_too_busy
submitting-SystemReach =
    let started = next (next start (start_thread settings refl refl)) (all_started refl refl) in
    let inside = next started (thread 0 waits refl (enter refl refl) tt) in
    let room = next inside (thread 0 waits refl (has_room refl refl) tt) in
    let page = next room (thread 0 waits refl (new_page refl) tt) in
    let chose = next page (thread 0 waits refl (chosen (draw 3) refl) tt) in
    let same = (next_request_frame device (draw 3) loop.th).0 in
    let settled_burst =
      next chose (thread 0 waits refl (no_wait request.0 refl (rw same refl)) tt) in
    next settled_burst (thread 0 waits refl (dispatched request.0 refl) tt)

single-IsAllocated : IsAllocated single (settings ∷ [])
single-IsAllocated = record { allocated = refl; counted = refl; fits = omega arith }

single-AcceptableConfig : AcceptableConfig power (2 ^ 30) 4 single (settings ∷ [])
single-AcceptableConfig = record {
  threads_min = omega arith;
  threads_max = omega arith;
  runtime_min = omega arith;
  runtime_max = omega arith;
  each = ground arith;
}

run_submissions_example :
    ComesTo 0 layer
      (kio_io_submit device 0 layer request.0.offset (some 5) request.0.dir.is_write)
      (λ r.
        (r ≡ (some enomem, [])) ⊎ Filled device 0 layer request.0.offset 5 request.0.dir.is_write r)
unfolding kio_io_dev_byte_size
run_submissions_example =
    run_submissions power 4 device single single (settings ∷ []) (settings ∷ []) submitting 0
      about_to_submit request.0 0 layer 5 0 (omega arith) (omega arith) refl refl single-IsAllocated
      (kio_config_is_valid_complete power (2 ^ 30) 4 (omega arith) single (settings ∷ [])
        single-IsAllocated single-AcceptableConfig)
      refl (ground arith) submitting-SystemReach refl refl

-- `kthread_stop` waits for the thread, which has a bio in flight.
abbrev joins : System
joins = record start_run { loops = stopping ∷ []; pc = joining 0 }

joining-SystemReach : SystemReach device (settings ∷ []) joins
joining-SystemReach =
    let sent =
      next submitting-SystemReach (thread 0 waits refl (submitted request.0 700 refl) tt) in
    let again = next sent (thread 0 waits refl (no_signal refl refl) tt) in
    let asked = next (next again (wait_over refl)) (ask 0 _ refl refl) in
    next asked (thread 0 stops refl (stop_at_top refl refl) tt)

abbrev ends : System
ends = record start_run {
  loops = over ∷ [];
  pc = returned;
  kio_running = false;
  report = summary none (settled over ∷ []);
}

ends-SystemReach : SystemReach device (settings ∷ []) ends
unfolding kio_bio_completion
ends-SystemReach =
    let idle = (next_request_frame device (draw 3) loop.th).1 in
    let completed =
      next joining-SystemReach (thread 0 stops refl (completion 90000 (omega arith)) tt) in
    let left =
      next completed
        (thread 0 stops refl (drained 2000000000 refl (inl (omega (arith, idle)))) tt) in
    next (next left (join 0 _ refl refl refl)) (finish 1 refl refl)

system_refines_kio_run_example :
    (kio_run (environment_of ends) single false
      ≡ done (record { result = none; kio_running = false; report = ends.report }))
    × All (λ l. l.pc ≡ finished) (over ∷ [])
system_refines_kio_run_example =
    system_refines_kio_run device single (settings ∷ []) ends single-IsAllocated (ground arith)
      ends-SystemReach refl

run_can_return_example :
    (s' : System) × SystemSteps device (settings ∷ []) joins s'
    × (s'.pc ≡ returned)
    × (s'.kio_running ≡ false)
run_can_return_example =
    run_can_return device (settings ∷ []) (omega arith) joins joining-SystemReach (refl, tt)

-- The first submission fails, and the thread is asked to stop.
abbrev lost : LoopState
lost = record loop {
  th = record request.1 { dispatched = u32 (request.1.dispatched + 1) };
  pc = drain;
  pages = 1;
  refused = 1;
  failed = some enomem;
}

abbrev running : System
running = record start_run { loops = lost ∷ []; pc = waiting }

running-SystemReach : SystemReach device (settings ∷ []) running
running-SystemReach =
    next submitting-SystemReach (thread 0 waits refl (submit_failed request.0 enomem refl) tt)

abbrev hanging_thread : LoopState
hanging_thread = record lost { should_stop = true }

abbrev hanging : System
hanging = record running { loops = hanging_thread ∷ []; pc = joining 0 }

refused_run_hangs_example :
    (hanging.pc ≢ returned)
    × (hanging.kio_running ≡ true)
    × (hanging.report ≡ none)
    × (hanging_thread.pc ≡ drain)
    × (hanging_thread.th.dispatched ≢ 0)
refused_run_hangs_example =
    refused_run_hangs {io = device} {ts = settings ∷ []} (omega arith) running-SystemReach 0 lost
      hanging_thread refl (omega arith)
      (and_then (and_then none_yet (wait_over refl)) (ask 0 lost refl refl)) refl refl
