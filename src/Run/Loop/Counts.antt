-- ===== src/Run/Loop/Counts.antt =====
-- Every request that is submitted completes and is counted once.
use kernel_io.Common.{ℕ, ◌+◌, ◌≤◌, ◌≡◌, refl, false, arith, u32, u64}
use kernel_io.Config.Types.{KioThreadConfig}
use kernel_io.Io.Device.{KioIo}
use kernel_io.Run.Completion.{kio_bio_completion}
use kernel_io.Run.Requests.Frames.{next_request_counts}
use kernel_io.Run.Loop.{
  finished, LoopState, Step, stop_at_top, enter, too_busy, has_room, wake, stop_woken, go_woken,
  no_page, new_page, chosen, no_wait, burst_over, stop_settling, dispatched, submitted,
  submit_failed, no_signal, interrupted, drained, completion, kthread_stop, signalled, Reach, start,
  next,
}
use kernel_io.Run.Loop.Safety.{finished_quiet}

-- The submissions that a step makes with success, and the nanoseconds that it adds to each total.
abbrev pub submits : {io : KioIo} {s s' : LoopState} → Step io s s' → ℕ
submits (submitted q slat_nsec p) = 1
submits _ = 0

abbrev pub slat_of : {io : KioIo} {s s' : LoopState} → Step io s s' → ℕ
slat_of (submitted q slat_nsec p) = slat_nsec
slat_of _ = 0

abbrev pub clat_of : {io : KioIo} {s s' : LoopState} → Step io s s' → ℕ
clat_of (completion clat_nsec p) = clat_nsec
clat_of _ = 0

-- The same of all the steps from the start.
module _ {io : KioIo} {i : ℕ} {t : KioThreadConfig} where
  unfoldable pub submissions : {s : LoopState} → Reach io i t s → ℕ
  submissions start = 0
  submissions (next r st) = submissions r + submits st

  pub slat_sum : {s : LoopState} → Reach io i t s → ℕ
  slat_sum start = 0
  slat_sum (next r st) = slat_sum r + slat_of st

  pub clat_sum : {s : LoopState} → Reach io i t s → ℕ
  clat_sum start = 0
  clat_sum (next r st) = clat_sum r + clat_of st

-- By how much a step moves the counts.
pub record Moves {io : KioIo} {s s' : LoopState} (st : Step io s s') : Type 0 where
  pub count : u32 (s'.th.completed + s'.inflight) ≡ u32 (s.th.completed + s.inflight + submits st)
  pub slat : u64 s'.th.slat_total ≡ u64 (s.th.slat_total + slat_of st)
  pub clat : u64 s'.th.clat_total ≡ u64 (s.th.clat_total + clat_of st)

pub Step-Moves : {io : KioIo} {s s' : LoopState} (st : Step io s s') → Moves st
unfolding kio_bio_completion
Step-Moves (stop_at_top p b) = ground arith
Step-Moves (enter p b) = ground arith
Step-Moves (too_busy p b) = ground arith
Step-Moves (has_room p b) = ground arith
Step-Moves (wake p b) = ground arith
Step-Moves (stop_woken p b) = ground arith
Step-Moves (go_woken p b) = ground arith
Step-Moves (no_page p) = ground arith
Step-Moves (new_page p) = ground arith
Step-Moves {io} {s} (chosen d p) = ground (arith, next_request_counts io d s.th)
Step-Moves (no_wait q p b) = ground arith
Step-Moves (burst_over q p b w g) = ground arith
Step-Moves (stop_settling q p b w g) = ground arith
Step-Moves (dispatched q p) = ground arith
Step-Moves (submitted q n p) = ground arith
Step-Moves (submit_failed q e p) = ground arith
Step-Moves (no_signal p b) = ground arith
Step-Moves (interrupted p b) = ground arith
Step-Moves (drained r p b) = ground arith
Step-Moves (completion n p) = ground arith
Step-Moves kthread_stop = ground arith
Step-Moves signalled = ground arith

module _ {io : KioIo} {i : ℕ} {t : KioThreadConfig} where
  counts :
      {s : LoopState} (r : Reach io i t s)
      → (u32 (s.th.completed + s.inflight) ≡ u32 (submissions r))
        × (u64 s.th.slat_total ≡ u64 (slat_sum r))
        × (u64 s.th.clat_total ≡ u64 (clat_sum r))
  unfolding submissions slat_sum clat_sum
  counts start = (refl, refl, refl)
  counts (next r st) =
      let (c, sl, cl) = counts r in
      let m = Step-Moves st in
      (omega (arith, m.count), omega (arith, m.slat), omega (arith, m.clat))

  pub finished_counts :
      {s : LoopState}
      → 1 ≤ t.queue_depth
      → t.queue_depth ≤ 1024
      → (r : Reach io i t s) → s.pc ≡ finished
      → s.signal ≡ false
      → (u32 s.th.completed ≡ u32 (submissions r))
        × (u64 s.th.slat_total ≡ u64 (slat_sum r))
        × (u64 s.th.clat_total ≡ u64 (clat_sum r))
  finished_counts deep fits r p quiet =
      let (c, sl, cl) = counts r in
      let (inflight, pages, none_counted, refused) = finished_quiet deep fits r p quiet in
      (omega arith, sl, cl)
