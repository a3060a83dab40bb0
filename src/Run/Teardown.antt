-- ===== src/Run/Teardown.antt =====
-- `kio_bio_completion` of driver/kio_run.c in the steps that the thread and `kio_run` can see
-- between, and the `kfree` of the threads at the end of `kio_run`.
pub mod Refines
pub mod Free
pub mod Report
use kernel_io.Common.{ℕ, ◌+◌, ◌-◌, ◌^◌, ◌<◌, ◌≡◌, Bool, true, false, u32, u64}
use kernel_io.Config.Types.{KioThreadConfig}
use kernel_io.Io.Device.{KioIo}
use kernel_io.Run.Thread.{KioThread, fresh_thread}
use kernel_io.Run.Loop.{Pc, finished, LoopState, Step, completion, start_loop}

-- The thread; how many completions have run `atomic_dec` and not yet `atomic_inc`, and how many
-- have run that and not yet read `bio_wqh`; and whether the threads have been freed.
pub record Fine : Type 0 where
  pub loop : LoopState
  pub late : ℕ
  pub waking : ℕ
  pub freed : Bool

abbrev pub OfThread : {io : KioIo} {s s' : LoopState} → Step io s s' → Type 0
OfThread (completion clat_nsec busy) = ⊥
OfThread _ = Unit

-- The first two lines that change the thread: the latency, and `atomic_dec`.
abbrev pub begin_completion : (clat_nsec : ℕ) → LoopState → LoopState
begin_completion clat_nsec s = record s {
  th = record s.th {
    clat_total = u64 (s.th.clat_total + clat_nsec);
    dispatched = u32 (s.th.dispatched + 2 ^ 32 - 1);
  };
  inflight = s.inflight - 1;
}

-- `atomic_inc`
abbrev pub count_completion : LoopState → LoopState
count_completion s = record s { th = record s.th { completed = u32 (s.th.completed + 1) } }

pub data FineStep (io : KioIo) (f : Fine) : Fine → Type 0 where
  thread :
      {l : LoopState} (st : Step io f.loop l) → OfThread st → FineStep io f (record f { loop = l })
  begin :
      (clat_nsec : ℕ)
      → 0 < f.loop.inflight
      → FineStep io f (record f { loop = begin_completion clat_nsec f.loop; late = f.late + 1 })
  count :
      0 < f.late
      → FineStep io f
          (record f { loop = count_completion f.loop; late = f.late - 1; waking = f.waking + 1 })
  -- Read `bio_wqh`, wake, and free the page.
  wake_up :
      0 < f.waking
      → FineStep io f
          (record f { loop = record f.loop { pages = f.loop.pages - 1 }; waking = f.waking - 1 })
  -- `kthread_stop` has returned, and `kio_run` frees the threads.
  kfree : f.loop.pc ≡ finished → FineStep io f (record f { freed = true })

pub data FineReach (io : KioIo) (i : ℕ) (t : KioThreadConfig) : Fine → Type 0 where
  start :
      FineReach io i t
        (record { loop = start_loop (fresh_thread i t); late = 0; waking = 0; freed = false })
  next : {f f' : Fine} → FineReach io i t f → FineStep io f f' → FineReach io i t f'
