-- ===== src/Config/Module.antt =====
-- Setting the configuration up and tearing it down (`kio_config_init` and `kio_config_exit` of
-- driver/kio_config.c).
pub mod Kobjects
use kernel_io.Common.{ℕ, Option, none, some, List, [], ◌∷◌, Exec, done, ◌>>=◌, enomem}
use kernel_io.Kernel.{
  Attr, num_threads, runtime_seconds, run_workload, created, put, Kernel, Kio, log,
}
use kernel_io.Config.Threads.{create_files, or_put, kio_config_destroy_all_threads}

abbrev pub module_attrs : List Attr
module_attrs = num_threads ∷ runtime_seconds ∷ run_workload ∷ []

-- `memset(&kio_config, 0, sizeof(kio_config))`, then the directory of the module.
abbrev pub with_module_kobj : Option ℕ → Kio → Kio
with_module_kobj kobj s = record s {
  config = record { runtime_seconds = 0; num_threads = 0; threads = none };
  kio_kobj = kobj;
}

-- None for 0, otherwise the error. A failure puts the directory back and leaves `kio_kobj` set.
unfoldable pub kio_config_init : Kernel → Kio → Option ℕ × Kio
kio_config_init kernel s = elim (kernel.kobject_create_and_add s.trace) [
  | none ↦ (some enomem, with_module_kobj none s)
  | some k ↦
      or_put k (create_files kernel k module_attrs (log (created k) (with_module_kobj (some k) s)))
]

-- `kobject_put` does nothing to NULL.
abbrev pub put_module : Kio → Kio
put_module s = elim s.kio_kobj [ none ↦ s | some k ↦ log (put k) s ]

unfoldable pub kio_config_exit : Kio → Exec Kio
kio_config_exit s = kio_config_destroy_all_threads s >>= λ s'. done (put_module s')
