-- ===== src/Run/Thread.antt =====
-- `struct kio_thread` of driver/kio_run.c.
use kernel_io.Common.{ℕ, Bool, false}
use kernel_io.Config.Types.{KioThreadConfig}

-- `thread`: NULL, a task, or an error pointer that `kthread_run` returned.
pub data Task : Type 0 where
  null : Task
  task : Task
  err_ptr : ℕ → Task

-- The pointers to the wait queue and the stop flag of the run, which all threads share, are left
-- to the model of the run. `bio_wqh` is whether the thread's own wait queue is set; `config` is
-- what the pointer leads to, which no run changes.
pub record KioThread : Type 0 where
  pub index : ℕ
  pub thread : Task
  pub config : KioThreadConfig
  pub bio_wqh : Bool
  pub dispatched : ℕ
  pub completed : ℕ
  pub runtime : ℕ
  pub slat_total : ℕ
  pub clat_total : ℕ
  pub read_burst : ℕ
  pub write_burst : ℕ
  pub next_offset : ℕ
  pub was_write : Bool

-- As `kzalloc` leaves it, with the index and the configuration filled in by `kio_run`.
abbrev pub fresh_thread : ℕ → KioThreadConfig → KioThread
fresh_thread i t = record {
  index = i;
  thread = null;
  config = t;
  bio_wqh = false;
  dispatched = 0;
  completed = 0;
  runtime = 0;
  slat_total = 0;
  clat_total = 0;
  read_burst = 0;
  write_burst = 0;
  next_offset = 0;
  was_write = false;
}
