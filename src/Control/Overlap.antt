-- ===== src/Control/Overlap.antt =====
-- `kio_run_workload_store` and a `kio_thread_var_store` that run at the same time: the second takes
-- no mutex. The validation of the first, and what the second does after its test, are one step each.
pub mod Race
use kernel_io.Common.{ℕ, ◌≡◌, Bool, true, false, List, Exec, done, Result}
use kernel_io.Config.Types.{KioConfig, cells}
use kernel_io.Config.Valid.{kio_config_is_valid}
use kernel_io.Config.Vars.{VarIndex, kio_thread_var_store}
use kernel_io.Run.Session.{check_block_sizes}
use kernel_io.Control.{Outside}

-- Where the two handlers stand.
pub data Runner : Type 0 where
  waiting : Runner
  checked : Runner
  launched : Runner
  refused : Runner

pub data Writer : Type 0 where
  outside : Writer
  tested : Writer
  stored : Writer

pub record Overlap : Type 0 where
  pub config : KioConfig
  pub kio_running : Bool
  pub runner : Runner
  pub writer : Writer

-- A write of this text to this variable of the thread with this kobject.
pub data OverlapStep (o : Outside) (kobj : ℕ) (x : VarIndex) (buf : List ℕ) (count : ℕ)
    (s : Overlap) : Overlap → Type 0 where
  check :
      (c' : KioConfig)
      → s.runner ≡ waiting
      → s.kio_running ≡ false
      → kio_config_is_valid o.is_power_of_2 o.dev_size o.kernel.num_online_cpus s.config
        ≡ done (true, c')
      → OverlapStep o kobj x buf count s (record s { config = c'; runner = checked })
  -- `kio_run` tests the block sizes, and sets `kio_running`.
  launch :
      s.runner ≡ checked
      → check_block_sizes s.config.num_threads 0 (cells s.config.threads) ≡ done true
      → OverlapStep o kobj x buf count s (record s { kio_running = true; runner = launched })
  refuse :
      s.runner ≡ checked
      → check_block_sizes s.config.num_threads 0 (cells s.config.threads) ≡ done false
      → OverlapStep o kobj x buf count s (record s { runner = refused })
  test :
      s.writer ≡ outside
      → s.kio_running ≡ false
      → OverlapStep o kobj x buf count s (record s { writer = tested })
  -- The rest of the handler, its test of `kio_running` having been passed.
  assign :
      (r : Result ℕ) (c' : KioConfig)
      → s.writer ≡ tested
      → kio_thread_var_store o.kstrtol false s.config kobj buf count x ≡ done (r, c')
      → OverlapStep o kobj x buf count s (record s { config = c'; writer = stored })

pub data Overlaps (o : Outside) (kobj : ℕ) (x : VarIndex) (buf : List ℕ) (count : ℕ) (s : Overlap)
    : Overlap → Type 0 where
  here : Overlaps o kobj x buf count s s
  more :
      {s' s'' : Overlap}
      → Overlaps o kobj x buf count s s'
      → OverlapStep o kobj x buf count s' s''
      → Overlaps o kobj x buf count s s''
