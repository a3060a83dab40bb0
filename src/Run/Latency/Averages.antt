-- ===== src/Run/Latency/Averages.antt =====
-- The latency that is reported is the average of what was measured.
use kernel_io.Common.{ℕ, ◌+◌, ◌-◌, ◌/◌, ◌^◌, ◌<◌, ◌≡◌, List, [], ◌∷◌, arith, All, length}
use kernel_io.Run.Thread.{KioThread}
use kernel_io.Run.Completion.{kio_bio_completion}
use kernel_io.Run.Latency.{Timed, measured, complete_all}
use kernel_io.Run.Latency.StartTimes.{Started, measured-Started}
use kernel_io.Run.Stats.{thread_report}

-- The times between submission and completion; a clock that went back counts as none.
unfoldable pub total_latency : List Timed → ℕ
total_latency [] = 0
total_latency (b ∷ bs) = b.now - b.start + total_latency bs

complete_all_lem :
    (bs : List Timed) (th : KioThread)
    → All Started bs
    → th.clat_total + total_latency bs < 2 ^ 63
    → th.completed + length bs < 2 ^ 32
    → ((complete_all bs th).clat_total ≡ th.clat_total + total_latency bs)
      × ((complete_all bs th).completed ≡ th.completed + length bs)
unfolding complete_all total_latency kio_bio_completion
complete_all_lem [] th started total count = omega arith
complete_all_lem (b ∷ bs) th started total count =
    let latency = measured-Started b started.0 in
    let rest = complete_all_lem bs (kio_bio_completion (measured b) th) started.1 in
    ground (arith, latency, rest)

-- For a thread from its start: if bios complete that were all submitted at a time other than 0
-- and between whose submission and completion only the start times of bios at other addresses
-- were set, at least one and fewer than 2 ^ 32, and their latencies add up to less than 2 ^ 63,
-- then the thread's report counts them, and its completion latency is the sum of the times from
-- submission to completion, none where the clock went back, divided by their number.
pub measured_latency :
    (bs : List Timed) (th : KioThread)
    → th.clat_total ≡ 0
    → th.completed ≡ 0
    → All Started bs
    → 0 < length bs
    → length bs < 2 ^ 32
    → total_latency bs < 2 ^ 63
    → ((thread_report (complete_all bs th)).cnt ≡ length bs)
      × ((thread_report (complete_all bs th)).clat ≡ total_latency bs / length bs)
unfolding thread_report
measured_latency bs th zero_total zero_count started some_done few total =
    let (clat, count) = complete_all_lem bs th started (omega arith) (omega arith) in ground arith
