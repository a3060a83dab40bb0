-- ===== src/Kernel.antt =====
-- What the module asks of the kernel: kobjects, sysfs files and memory. The calls that succeed are
-- kept in a trace, the latest first; what a call returns may depend on all that came before.
pub mod Ledger
use kernel_io.Common.{ℕ, Bool, Option, List, ◌∷◌}
use kernel_io.Config.Types.{KioConfig}
use kernel_io.Config.Vars.{VarIndex}

-- The files of the module: three of its own, and one for each variable of a thread.
pub data Attr : Type 0 where
  num_threads runtime_seconds run_workload : Attr
  var : VarIndex → Attr

pub data Event : Type 0 where
  created : (kobj : ℕ) → Event
  filed : (kobj : ℕ) → Attr → Event
  put : (kobj : ℕ) → Event
  zalloc : (elements : ℕ) → Event
  freed : Event

-- `kobject_create_and_add` returns a kobject or NULL, `sysfs_create_file` none for 0 and otherwise
-- the error, and `kzalloc` says whether it has returned memory.
pub record Kernel : Type 0 where
  pub num_online_cpus : ℕ
  pub kobject_create_and_add : List Event → Option ℕ
  pub sysfs_create_file : List Event → ℕ → Attr → Option ℕ
  pub kzalloc : List Event → ℕ → Bool

-- The variables of the module: `kio_config`, `kio_kobj` and `kio_running`, and the trace.
pub record Kio : Type 0 where
  pub config : KioConfig
  pub kio_kobj : Option ℕ
  pub kio_running : Bool
  pub trace : List Event

abbrev pub log : Event → Kio → Kio
log e s = record s { trace = e ∷ s.trace }
