-- ===== src/Run/Loop/Ranges.antt =====
-- Every number of a thread is one of its field's type.
use kernel_io.Common.{ℕ, ◌≤◌, ◌<◌, ◌^◌, ◌≡◌, ◌⊎◌, ◌∙◌, arith}
use kernel_io.Config.Types.{KioThreadConfig, Fits}
use kernel_io.Io.Device.{KioIo}
use kernel_io.Run.Thread.{KioThread}
use kernel_io.Run.Completion.{kio_bio_completion}
use kernel_io.Run.Dir.{kio_thread_next_dir}
use kernel_io.Run.Dir.Bursts.{BurstsOk, kio_thread_next_dir-BurstsOk, next_dir_frame}
use kernel_io.Run.Offset.{kio_thread_next_offset, advance}
use kernel_io.Run.Offset.OnDevice.{next_offset_frame}
use kernel_io.Run.Requests.{Draw, next_request}
use kernel_io.Run.Requests.Frames.{next_request_counts}
use kernel_io.Run.Requests.Safety.{next_request_frame}
use kernel_io.Run.Loop.{
  LoopState, Step, stop_at_top, enter, too_busy, has_room, wake, stop_woken, go_woken, no_page,
  new_page, chosen, no_wait, burst_over, stop_settling, dispatched, submitted, submit_failed,
  no_signal, interrupted, drained, completion, kthread_stop, signalled, Reach, start, next,
}

pub record Ranges (t : KioThreadConfig) (th : KioThread) : Type 0 where
  pub same_config : th.config ≡ t
  pub dispatched_fits : th.dispatched < 2 ^ 32
  pub completed_fits : th.completed < 2 ^ 32
  pub slat_fits : th.slat_total < 2 ^ 64
  pub clat_fits : th.clat_total < 2 ^ 64
  pub offset_fits : th.next_offset < 2 ^ 64
  pub one_burst : (th.read_burst ≡ 0) ⊎ (th.write_burst ≡ 0)
  pub reads_left : th.read_burst ≤ t.read_burst
  pub writes_left : th.write_burst ≤ t.write_burst

advance-lt : (th : KioThread) → Fits th.config → advance th < 2 ^ 64
unfolding advance
advance-lt th f = ground (arith, f.low_fits)

next_offset-lt :
    (io : KioIo) (lo hi : ℕ) (th : KioThread)
    → Fits th.config
    → th.next_offset < 2 ^ 64
    → (kio_thread_next_offset io lo hi th).1.next_offset < 2 ^ 64
unfolding kio_thread_next_offset
next_offset-lt io lo hi th f low = ground (arith, advance-lt th f)

next_request-Ranges :
    (io : KioIo) (d : Draw) (t : KioThreadConfig) (th : KioThread)
    → Fits t
    → Ranges t th
    → Ranges t (next_request io d th).1
unfolding next_request
next_request-Ranges io d t th f v =
    let b : BurstsOk th = record {
      one = v.one_burst;
      reads_left = ground (arith, v.reads_left, v.same_config);
      writes_left = ground (arith, v.writes_left, v.same_config);
    } in
    let b' = kio_thread_next_dir-BurstsOk d.dir th b in
    let th' = (kio_thread_next_dir d.dir th).1 in
    let (same, still, count) = next_dir_frame d.dir th in
    let frame = next_offset_frame io d.lo d.hi th' in
    let counts = next_request_counts io d th in
    let low = next_offset-lt io d.lo d.hi th' (rw (same ∙ v.same_config) f) (omega arith) in
    let (sc, sd) = next_request_frame io d th in
    let (cc', cs, cl) = counts in
    record {
      same_config = sc ∙ v.same_config;
      dispatched_fits = omega arith;
      completed_fits = omega arith;
      slat_fits = omega arith;
      clat_fits = omega arith;
      offset_fits = low;
      one_burst = ground (arith, b'.one, frame);
      reads_left = ground (arith, b'.reads_left, frame, same);
      writes_left = ground (arith, b'.writes_left, frame, same);
    }

module _ (io : KioIo) (t : KioThreadConfig) (f : Fits t) where
  Step-Ranges : {s s' : LoopState} → Step io s s' → Ranges t s.th → Ranges t s'.th
  unfolding kio_bio_completion
  Step-Ranges {s} (chosen d p) v = next_request-Ranges io d t s.th f v
  Step-Ranges (stop_at_top p b) v = v
  Step-Ranges (enter p b) v = v
  Step-Ranges (too_busy p b) v = v
  Step-Ranges (has_room p b) v = v
  Step-Ranges (wake p b) v = v
  Step-Ranges (stop_woken p b) v = v
  Step-Ranges (go_woken p b) v = v
  Step-Ranges (no_page p) v = v
  Step-Ranges (new_page p) v = v
  Step-Ranges (no_wait q p b) v = v
  Step-Ranges (burst_over q p b w g) v = v
  Step-Ranges (stop_settling q p b w g) v = v
  Step-Ranges (dispatched q p) v = ground arith
  Step-Ranges (submitted q n p) v = ground arith
  Step-Ranges (submit_failed q e p) v = v
  Step-Ranges (no_signal p b) v = v
  Step-Ranges (interrupted p b) v = v
  Step-Ranges (drained r p b) v = ground arith
  Step-Ranges (completion n p) v = ground arith
  Step-Ranges kthread_stop v = v
  Step-Ranges signalled v = v

  -- For settings whose fields hold values of their types: in every state that a thread can reach,
  -- its counts of requests are 32-bit numbers and its totals and next_offset 64-bit numbers, at
  -- most one burst is under way, what is left of a burst is at most what the settings ask for,
  -- and the settings are as they were.
  pub Reach-Ranges : {i : ℕ} {s : LoopState} → Reach io i t s → Ranges t s.th
  Reach-Ranges start = ground arith
  Reach-Ranges (next r st) = Step-Ranges st (Reach-Ranges r)
