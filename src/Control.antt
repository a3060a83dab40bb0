-- ===== src/Control.antt =====
-- Writes to the files of the module: `runtime_seconds` and `run_workload` (driver/kio_config.c),
-- and all the files together. A handler is one piece here: the mutex, under which all but
-- `kio_thread_var_store` run, is in Control/Mutex.
pub mod Running
pub mod Safety
pub mod Reached
pub mod Overlap
pub mod Again
pub mod Show
pub mod LeftOver
pub mod Runtime
pub mod Untouched
pub mod Ledger
pub mod Mutex
use kernel_io.Common.{
  ℕ, Bool, ◌||◌, not, Option, List, [], ◌∷◌, ◌==◌, if◌then◌else◌, Exec, done, ◌>>=◌, Result, ok,
  err, ebusy, echild, enoexec, eoverflow, u32, slt32,
}
use kernel_io.Config.Types.{KioConfig, kio_max_runtime_seconds}
use kernel_io.Config.Valid.{kio_config_is_valid}
use kernel_io.Config.Vars.{VarIndex, kio_thread_var_store}
use kernel_io.Config.Threads.{is_set, scanned, kio_num_threads_store}
use kernel_io.Kernel.{Kernel, Kio}
use kernel_io.Run.Session.{Environment, Outcome, kio_run}

-- What the handlers call and do not define: the kernel's functions, what happens during a run, and
-- the size of the device.
pub record Outside : Type 0 where
  pub kernel : Kernel
  pub sscanf : List ℕ → Option ℕ
  pub kstrtol : List ℕ → Result ℕ
  pub is_power_of_2 : ℕ → Bool
  pub dev_size : ℕ
  pub env : Environment

abbrev pub set_runtime_seconds : ℕ → Kio → Kio
set_runtime_seconds n s = record s { config = record s.config { runtime_seconds = n } }

-- The verdict on the configuration has been `v`; the result of `kio_run` is dropped.
abbrev pub run_valid : Environment → (count : ℕ) → Kio → Bool × KioConfig → Exec (Result ℕ × Kio)
run_valid env count s v =
    if not v.0
    then done (err enoexec, record s { config = v.1 })
    else (kio_run env v.1 s.kio_running >>= λ o.
        done (ok (u32 count), record s { config = v.1; kio_running = o.kio_running }))

-- A write: the file, the bytes and their count.
pub data Write : Type 0 where
  to_num_threads : List ℕ → (count : ℕ) → Write
  to_runtime_seconds : List ℕ → (count : ℕ) → Write
  to_run_workload : (count : ℕ) → Write
  to_var : (kobj : ℕ) → VarIndex → List ℕ → (count : ℕ) → Write

module _ (o : Outside) where
  pub kio_runtime_seconds_store : List ℕ → (count : ℕ) → Kio → Exec (Result ℕ × Kio)
  kio_runtime_seconds_store buf count s =
      let seconds = scanned (o.sscanf buf) in
      if s.kio_running
      then done (err ebusy, s)
      else if slt32 seconds 1 || slt32 kio_max_runtime_seconds seconds
      then done (err eoverflow, s)
      else done (ok (u32 count), set_runtime_seconds seconds s)

  pub kio_run_workload_store : (count : ℕ) → Kio → Exec (Result ℕ × Kio)
  kio_run_workload_store count s =
      if s.kio_running
      then done (err ebusy, s)
      else if s.config.num_threads == 0 || not (is_set s.config.threads)
      then done (err echild, s)
      else (kio_config_is_valid o.is_power_of_2 o.dev_size o.kernel.num_online_cpus s.config
          >>= run_valid o.env count s)

  -- The handler of the file that is written to.
  unfoldable pub store : Write → Kio → Exec (Result ℕ × Kio)
  store (to_num_threads buf count) s = kio_num_threads_store o.kernel o.sscanf buf count s
  store (to_runtime_seconds buf count) s = kio_runtime_seconds_store buf count s
  store (to_run_workload count) s = kio_run_workload_store count s
  store (to_var kobj var_index buf count) s =
      kio_thread_var_store o.kstrtol s.kio_running s.config kobj buf count var_index >>= λ r.
      done (r.0, record s { config = r.1 })

  -- Writes one after another, with their results.
  pub stores : List Write → Kio → Exec (List (Result ℕ) × Kio)
  stores [] s = done ([], s)
  stores (w ∷ ws) s = store w s >>= λ r. stores ws r.1 >>= λ q. done (r.0 ∷ q.0, q.1)
