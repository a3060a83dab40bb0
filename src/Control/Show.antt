-- ===== src/Control/Show.antt =====
-- Reads of the files of the module: the show handlers of `num_threads`, `runtime_seconds` and
-- `run_workload` (driver/kio_config.c), and those of the variables. `sprintf` at "%d\n" and at
-- "%ld\n" are parameters, the number being the 32-bit or 64-bit pattern that they are given.
pub mod Total
use kernel_io.Common.{ℕ, Bool, true, false, List, Exec, done, Result, ok}
use kernel_io.Config.Vars.{VarIndex, kio_thread_var_show}
use kernel_io.Kernel.{Kio}

-- A read: the file.
pub data Read : Type 0 where
  from_num_threads : Read
  from_runtime_seconds : Read
  from_run_workload : Read
  from_var : (kobj : ℕ) → VarIndex → Read

-- A bool that is passed as an int.
abbrev pub as_int : Bool → ℕ
as_int true = 1
as_int false = 0

module _ (sprintf_d sprintf_ld : ℕ → List ℕ) where
  abbrev pub kio_num_threads_show : Kio → List ℕ
  kio_num_threads_show s = sprintf_d s.config.num_threads

  abbrev pub kio_runtime_seconds_show : Kio → List ℕ
  kio_runtime_seconds_show s = sprintf_d s.config.runtime_seconds

  abbrev pub kio_run_workload_show : Kio → List ℕ
  kio_run_workload_show s = sprintf_d (as_int s.kio_running)

  -- The handler of the file that is read.
  unfoldable pub show : Read → Kio → Exec (Result (List ℕ))
  show from_num_threads s = done (ok (kio_num_threads_show s))
  show from_runtime_seconds s = done (ok (kio_runtime_seconds_show s))
  show from_run_workload s = done (ok (kio_run_workload_show s))
  show (from_var kobj var_index) s = kio_thread_var_show sprintf_ld s.config kobj var_index
