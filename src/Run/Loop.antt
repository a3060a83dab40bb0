-- ===== src/Run/Loop.antt =====
-- `kio_thread_fn` of driver/kio_run.c as a step relation: the thread, the completions that
-- interrupt it, and `kthread_stop` and signals from outside, in any order.
pub mod Invariant
pub mod Safety
pub mod Termination
pub mod Finishes
pub mod Stays
pub mod Requests
pub mod Counts
pub mod Window
pub mod Returns
pub mod Ranges
pub mod Progress
pub mod Closed
use kernel_io.Common.{
  ℕ, ◌+◌, ◌-◌, ◌<◌, ◌≡◌, ◌≢◌, ◌⊎◌, Bool, true, false, ◌&&◌, not, Option, none, some, ◌==◌,
  if◌then◌else◌, u32, u64, enomem, eintr,
}
use kernel_io.Config.Types.{KioThreadConfig}
use kernel_io.Io.Device.{KioIo}
use kernel_io.Run.Thread.{KioThread, fresh_thread}
use kernel_io.Run.Completion.{kio_bio_completion, kio_thread_busy, kio_thread_too_busy}
use kernel_io.Run.Requests.{Draw, Request, next_request}

-- Where the thread stands, with the request that its locals hold.
pub data Pc : Type 0 where
  top : Pc  -- the test of the `while`
  throttle : Pc  -- the test of `kio_thread_too_busy`
  waiting : Pc  -- in `wait_event_interruptible` until the queue has room
  woken : Pc  -- the second `kthread_should_stop`
  alloc : Pc  -- `kio_new_page`
  choose : Pc  -- `kio_thread_next_dir` and `kio_thread_next_offset`
  settle : Request → Pc  -- the wait for the end of a burst
  dispatch : Request → Pc  -- `atomic_inc(&th->dispatched)`
  submit : Request → Pc  -- `kio_io_submit`
  signals : Pc  -- `signal_pending(current)`, after the pause
  drain : Pc  -- the wait behind the loop
  finished : Pc  -- returned

-- `failed` is the local `result`, none for 0 and an error number for its negation. `inflight`
-- counts the bios that the kernel has accepted and not completed, `pages` the pages that are
-- allocated; `refused` counts the submissions that failed, and no code reads it.
pub record LoopState : Type 0 where
  pub th : KioThread
  pub pc : Pc
  pub failed : Option ℕ
  pub inflight : ℕ
  pub pages : ℕ
  pub refused : ℕ
  pub should_stop : Bool
  pub signal : Bool
  pub emergency_stop : Bool

-- Entry of the function: `th->bio_wqh = &wqh; th->runtime = 0`.
abbrev pub start_loop : KioThread → LoopState
start_loop th = record {
  th = record th { bio_wqh = true; runtime = 0 };
  pc = top;
  failed = none;
  inflight = 0;
  pages = 0;
  refused = 0;
  should_stop = false;
  signal = false;
  emergency_stop = false;
}

-- `ktc->burst_finish && dir.new_burst`
abbrev pub waits_for_burst : KioThreadConfig → Request → Bool
waits_for_burst ktc q = not (ktc.burst_finish == 0) && q.dir.new_burst

abbrev pub is_error : Option ℕ → Bool
is_error none = false
is_error (some _) = true

-- What follows the loop, once the last wait has ended.
abbrev pub leave : (runtime : ℕ) → LoopState → LoopState
leave runtime s = record s {
  th = record s.th { runtime = runtime; bio_wqh = false };
  pc = finished;
  emergency_stop = if is_error s.failed then true else s.emergency_stop;
}

-- A wait ends when its condition holds, or when a signal is pending.
pub data Step (io : KioIo) (s : LoopState) : LoopState → Type 0 where
  stop_at_top : s.pc ≡ top → s.should_stop ≡ true → Step io s (record s { pc = drain })
  enter : s.pc ≡ top → s.should_stop ≡ false → Step io s (record s { pc = throttle })
  too_busy :
      s.pc ≡ throttle → kio_thread_too_busy s.th ≡ true → Step io s (record s { pc = waiting })
  has_room :
      s.pc ≡ throttle → kio_thread_too_busy s.th ≡ false → Step io s (record s { pc = alloc })
  wake :
      s.pc ≡ waiting
      → (kio_thread_too_busy s.th ≡ false) ⊎ (s.signal ≡ true)
      → Step io s (record s { pc = woken })
  stop_woken : s.pc ≡ woken → s.should_stop ≡ true → Step io s (record s { pc = drain })
  go_woken : s.pc ≡ woken → s.should_stop ≡ false → Step io s (record s { pc = alloc })
  no_page : s.pc ≡ alloc → Step io s (record s { failed = some enomem; pc = drain })
  new_page : s.pc ≡ alloc → Step io s (record s { pages = s.pages + 1; pc = choose })
  chosen :
      (d : Draw)
      → s.pc ≡ choose
      → Step io s
          (record s { th = (next_request io d s.th).1; pc = settle (next_request io d s.th).0 })
  no_wait :
      (q : Request)
      → s.pc ≡ settle q
      → waits_for_burst s.th.config q ≡ false
      → Step io s (record s { pc = dispatch q })
  burst_over :
      (q : Request)
      → s.pc ≡ settle q
      → waits_for_burst s.th.config q ≡ true
      → (kio_thread_busy s.th ≡ 0) ⊎ (s.signal ≡ true)
      → s.should_stop ≡ false
      → Step io s (record s { pc = dispatch q })
  stop_settling :
      (q : Request)
      → s.pc ≡ settle q
      → waits_for_burst s.th.config q ≡ true
      → (kio_thread_busy s.th ≡ 0) ⊎ (s.signal ≡ true)
      → s.should_stop ≡ true
      → Step io s (record s { pages = s.pages - 1; pc = drain })
  dispatched :
      (q : Request)
      → s.pc ≡ dispatch q
      → Step io s
          (record s { th = record s.th { dispatched = u32 (s.th.dispatched + 1) }; pc = submit q })
  submitted :
      (q : Request) (slat_nsec : ℕ)
      → s.pc ≡ submit q
      → Step io s (record s {
        th = record s.th { slat_total = u64 (s.th.slat_total + slat_nsec) };
        failed = none;
        inflight = s.inflight + 1;
        pc = signals;
      })
  submit_failed :
      (q : Request) (e : ℕ)
      → s.pc ≡ submit q
      → Step io s (record s { failed = some e; refused = s.refused + 1; pc = drain })
  no_signal : s.pc ≡ signals → s.signal ≡ false → Step io s (record s { pc = top })
  interrupted :
      s.pc ≡ signals → s.signal ≡ true → Step io s (record s { failed = some eintr; pc = drain })
  drained :
      (runtime : ℕ)
      → s.pc ≡ drain
      → (s.th.dispatched ≡ 0) ⊎ (s.signal ≡ true)
      → Step io s (leave runtime s)
  completion :
      (clat_nsec : ℕ)
      → 0 < s.inflight
      → Step io s (record s {
        th = kio_bio_completion clat_nsec s.th;
        inflight = s.inflight - 1;
        pages = s.pages - 1;
      })
  kthread_stop : Step io s (record s { should_stop = true })
  signalled : Step io s (record s { signal = true })

-- What can come of a thread with the index and configuration that `kio_run` gives it.
pub data Reach (io : KioIo) (i : ℕ) (t : KioThreadConfig) : LoopState → Type 0 where
  start : Reach io i t (start_loop (fresh_thread i t))
  next : {s s' : LoopState} → Reach io i t s → Step io s s' → Reach io i t s'
