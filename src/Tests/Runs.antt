-- ===== src/Tests/Runs.antt =====
-- The requests of a thread, and its loop.
use kernel_io.Common.{
  inl, ◌<◌, ◌+◌, ◌^◌, ◌≤◌, ◌≡◌, ◌⊎◌, refl, true, false, List, [], ◌∷◌, arith, All, u32,
}
use kernel_io.Config.Valid.Thread.{capped}
use kernel_io.Run.Thread.{KioThread, fresh_thread}
use kernel_io.Run.Dir.{Dir}
use kernel_io.Run.Dir.Bursts.{next_dirs, Continues, Idle, burst_length}
use kernel_io.Run.Offset.OnDevice.{Runnable}
use kernel_io.Run.Requests.{Request, next_request}
use kernel_io.Run.Requests.Safety.{next_request_frame}
use kernel_io.Run.Completion.{kio_thread_too_busy}
use kernel_io.Run.Loop.{
  Pc, LoopState, start_loop, Reach, start, next, enter, has_room, new_page, chosen, no_wait,
  dispatched,
}
use kernel_io.Run.Loop.Progress.{Active, further_submissions, keeps_submitting}
use kernel_io.Run.Loop.Counts.{submissions}
use kernel_io.Run.Loop.Window.{Within, requests-Within}
use kernel_io.Run.Loop.Safety.{Steps, queue_depth_respected}
use kernel_io.Tests.Data.{device, sequential, draw}

abbrev th : KioThread
th = fresh_thread 0 (capped (2 ^ 30) sequential)

burst_length_example :
    let (ds, th') = next_dirs (169 ∷ 5 ∷ 5 ∷ []) th in
    (d : Dir) × (rest : List Dir) × (ds ≡ d ∷ rest)
    × (d.is_write ≡ false)
    × (d.new_burst ≡ true)
    × All (Continues false) rest
    × Idle th'
burst_length_example =
    burst_length th 169 (5 ∷ 5 ∷ []) (refl, refl) (omega arith) (omega arith) refl

abbrev mid_burst : KioThread
mid_burst = record th { read_burst = 2 }

th-Runnable : Runnable (2 ^ 30) (capped (2 ^ 30) sequential)
th-Runnable = omega arith

-- A thread that is about to submit its first request.
abbrev Reaches : LoopState → Type 0
Reaches = Reach device 0 (capped (2 ^ 30) sequential)

abbrev first : Request × KioThread
first = next_request device (draw 3) (start_loop th).th

abbrev submitting : LoopState
submitting = record (start_loop th) {
  th = record first.1 { dispatched = u32 (first.1.dispatched + 1) };
  pc = Pc.submit first.0;
  pages = 1;
}

submitting-Reaches : Reaches submitting
unfolding kio_thread_too_busy
submitting-Reaches =
    next
      (next
        (next (next (next (next start (enter refl refl)) (has_room refl refl)) (new_page refl))
          (chosen (draw 3) refl))
        (no_wait first.0 refl
          (rw ((next_request_frame device (draw 3) (start_loop th).th).0) refl)))
      (dispatched first.0 refl)

queue_depth_respected_example : submitting.th.dispatched ≤ 2 + 0
queue_depth_respected_example =
    queue_depth_respected {i = 0} (omega arith) (omega arith) submitting-Reaches

keeps_submitting_example :
    (s' : LoopState) × (ss : Steps device submitting s') × Active s' × (5 ≤ further_submissions ss)
keeps_submitting_example =
    keeps_submitting {i = 0} (omega arith) (omega arith) 5 submitting submitting-Reaches
      (record { in_loop = tt; unasked = refl; quiet = refl })

requests-Within_example :
    ((submissions submitting-Reaches ≡ 0) × (first.0.offset ≡ 0))
    ⊎ ((0 < submissions submitting-Reaches) × Within (capped (2 ^ 30) sequential) first.0.offset)
requests-Within_example =
    requests-Within device (omega arith) (omega arith) (capped (2 ^ 30) sequential) th-Runnable refl
      refl (inl (omega arith)) submitting-Reaches first.0 refl
