-- ===== src/Tests/Life.antt =====
-- The module loaded and removed, and a thread that is asked to stop.
use kernel_io.Common.{
  ℕ, ◌+◌, ◌^◌, ◌≤◌, ◌<◌, ◌≡◌, ◌≢◌, ◌⊎◌, refl, true, Option, none, some, List, [], ◌∷◌, arith, done,
  fault,
}
use kernel_io.Kernel.{num_threads, runtime_seconds, run_workload, created, filed}
use kernel_io.Config.Ledger.{Settled}
use kernel_io.Config.Threads.{create_files}
use kernel_io.Config.Module.{kio_config_init}
use kernel_io.Io.Open.{
  BlockKernel, duplicated, opened, bio_set_up, Opened, bioset_init, no_device, kio_io_init,
  open_device, check_device, set_up_bios,
}
use kernel_io.Io.Open.Ledger.{ledger}
use kernel_io.Io.Open.Balance.{IsClosed, Trims}
use kernel_io.Main.{Module, kio_init, kio_exit}
use kernel_io.Main.Life.{loads, Loads, kio_init-Loads, kio_exit-Closed}
use kernel_io.Run.Loop.{Pc, LoopState, start_loop, start, next, kthread_stop, stop_at_top, finished}
use kernel_io.Run.Loop.Termination.{idle, work, CanWork, stopped_thread_finishes}
use kernel_io.Run.Thread.{fresh_thread}
use kernel_io.Config.Valid.Thread.{capped}
use kernel_io.Tests.Data.{device, sequential}
use kernel_io.Tests.Lifecycle.{kernel, empty}

-- Stand for the kernel's functions at a device of one gibibyte, number 3.
abbrev pub block : BlockKernel
block = record {
  kstrdup = λ text. some text;
  strim = λ copy. elim copy [
    | none ↦ fault
    | some text ↦ done (some (record { text = text; skipped = 0 }))
  ];
  blkdev_get_by_path = λ text. Opened.device 3;
  logical_block_size = λ bdev. some 512;
  set_blocksize = λ bdev. none;
  i_size_read = λ bdev. 2 ^ 30;
  bio_setup = bioset_init none;
  releases_unset = true;
}

abbrev before : Module
before = record { kio = empty; dev = record { io = no_device; events = [] } }

before-Closed : IsClosed before.dev
unfolding ledger
before-Closed = refl

sdb-Trims : (path : List ℕ) → some (115 ∷ 100 ∷ 98 ∷ []) ≡ some path → Trims block path
sdb-Trims path e = record {
  name = record { text = path; skipped = 0 };
  copied = λ h. cc;
  trimmed = refl;
  unskipped = refl;
}

kio_init-Loads_example :
    (r : Option ℕ × Module) × (kio_init kernel block (some (115 ∷ 100 ∷ 98 ∷ [])) before ≡ done r)
    × Loads block before r
kio_init-Loads_example =
    kio_init-Loads block kernel (some (115 ∷ 100 ∷ 98 ∷ [])) before refl before-Closed sdb-Trims

abbrev after : Module
after = record {
  kio = record empty {
    config = record empty.config { runtime_seconds = 0 };
    trace = filed 0 run_workload ∷ filed 0 runtime_seconds ∷ filed 0 num_threads ∷ created 0 ∷ [];
  };
  dev = record {
    io = record {
      dev_name = some (record { text = 115 ∷ 100 ∷ 98 ∷ []; skipped = 0 });
      bdev = some 3;
      dev_byte_size = 2 ^ 30;
      dev_block_size = 512;
      bio_set = true;
    };
    events = bio_set_up ∷ opened 3 ∷ duplicated ∷ [];
  };
}

loading : kio_init kernel block (some (115 ∷ 100 ∷ 98 ∷ [])) before ≡ done (none, after)
unfolding kio_init kio_config_init create_files kio_io_init open_device check_device set_up_bios
loading = refl

kio_exit-Closed_example :
    ((m' : Module) × (kio_exit block after ≡ done m')
      × IsClosed m'.dev
      × (m'.dev.io ≡ no_device)
      × (m'.kio.config.threads ≡ none)
      × Settled before.kio m'.kio)
    ⊎ ((after.kio.config.threads ≡ none)
        × (after.kio.config.num_threads ≢ 0)
        × (kio_exit block after ≡ fault))
kio_exit-Closed_example =
    kio_exit-Closed block refl after (loads kernel (some (115 ∷ 100 ∷ 98 ∷ [])) before loading)
      before-Closed sdb-Trims

-- The stopped thread takes two steps.
abbrev th_state : LoopState
th_state = record (start_loop (fresh_thread 0 (capped (2 ^ 30) sequential))) { should_stop = true }

stopped_thread_finishes_example :
    (1 ≤ 12 + 2 + 0)
    × ((Pc.drain ≡ finished) ⊎ CanWork device (record th_state { pc = Pc.drain }) ⊎ (0 < 0))
stopped_thread_finishes_example =
    stopped_thread_finishes device (capped (2 ^ 30) sequential) (omega arith) {i = 0} (omega arith)
      (next start kthread_stop) refl (work idle (stop_at_top refl refl) tt)
