-- ===== src/Run/Loop/Safety.antt =====
-- What the counts say of a thread that validation has accepted.
use kernel_io.Common.{ℕ, ◌+◌, ◌≤◌, ◌<◌, ◌≡◌, ◌≢◌, refl, false, arith}
use kernel_io.Config.Types.{KioThreadConfig}
use kernel_io.Io.Device.{KioIo}
use kernel_io.Run.Loop.{drain, finished, LoopState, Step, submit_failed, Reach, start, next}
use kernel_io.Run.Loop.Invariant.{one_if, Inv, Step-Inv}

-- Some steps.
pub data Steps (io : KioIo) (s : LoopState) : LoopState → Type 0 where
  here : Steps io s s
  more : {s' s'' : LoopState} → Steps io s s' → Step io s' s'' → Steps io s s''

pub Reach-Steps :
    {io : KioIo} {i : ℕ} {t : KioThreadConfig} {s s' : LoopState}
    → Reach io i t s
    → Steps io s s'
    → Reach io i t s'
Reach-Steps r here = r
Reach-Steps r (more ss st) = next (Reach-Steps r ss) st

pub Step-refused : {io : KioIo} {s s' : LoopState} → Step io s s' → s.refused ≤ s'.refused
Step-refused (submit_failed q e p) = omega arith
Step-refused _ = omega arith

Steps-refused : {io : KioIo} {s s' : LoopState} → Steps io s s' → s.refused ≤ s'.refused
Steps-refused here = omega arith
Steps-refused (more ss st) = omega (arith, Steps-refused ss, Step-refused st)

module _ {io : KioIo} {i : ℕ} {t : KioThreadConfig} (deep : 1 ≤ t.queue_depth)
    (fits : t.queue_depth ≤ 1024) where
  pub Reach-Inv : {s : LoopState} → Reach io i t s → Inv t s
  Reach-Inv start = record {
    same_config = refl;
    counted = omega arith;
    paged = omega arith;
    bounded = omega arith;
    ended = refl;
    quiet = tt;
  }
  Reach-Inv (next r st) = Step-Inv io t deep fits st (Reach-Inv r)

  -- For a queue depth from 1 to 1024: in every state that a thread can reach, the count of
  -- dispatched requests is at most the queue depth, and one more if a signal is pending.
  pub queue_depth_respected :
      {s : LoopState} → Reach io i t s → s.th.dispatched ≤ t.queue_depth + one_if s.signal
  queue_depth_respected {s} r = let v = Reach-Inv r in ground (arith, v.bounded)

  -- For a queue depth from 1 to 1024: a thread that has returned with no signal pending has no
  -- bio in flight, no page allocated, no request counted as dispatched, and no submission that
  -- failed.
  pub finished_quiet :
      {s : LoopState}
      → Reach io i t s
      → s.pc ≡ finished
      → s.signal ≡ false
      → (s.inflight ≡ 0) × (s.pages ≡ 0) × (s.th.dispatched ≡ 0) × (s.refused ≡ 0)
  finished_quiet {s} r p quiet =
      let v = Reach-Inv r in (ground (arith, v.counted, v.paged, v.ended, v.quiet))

  -- For a queue depth from 1 to 1024: once a submission has failed, then after any further steps,
  -- completions and stop requests included, and as long as no signal is pending, the thread still
  -- stands in its last wait with a count of dispatched requests that is not zero.
  pub refused_never_finishes :
      {s s' : LoopState}
      → Reach io i t s
      → 0 < s.refused
      → Steps io s s'
      → s'.signal ≡ false
      → (s'.pc ≡ drain) × (s'.th.dispatched ≢ 0)
  refused_never_finishes {s} {s'} r lost ss quiet =
      let v = Reach-Inv (Reach-Steps r ss) in
      let still = Steps-refused ss in ground (arith, v.counted, v.ended)
