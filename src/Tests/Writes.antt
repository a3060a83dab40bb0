-- ===== src/Tests/Writes.antt =====
-- Writes to the files of the module.
use kernel_io.Common.{◌^◌, ◌≡◌, inl, refl, true, some, List, [], ◌∷◌, arith, done, ok, err, ebusy}
use mathlib.Core.List.{map}
use kernel_io.Config.Types.{KioConfig}
use kernel_io.Config.Valid.Thread.{capped}
use kernel_io.Config.Valid.Verdict.{kio_config_is_valid_complete}
use kernel_io.Config.Vars.{kio_queue_depth}
use kernel_io.Config.Threads.{create_files}
use kernel_io.Config.Module.{kio_config_init}
use kernel_io.Kernel.{num_threads, runtime_seconds, run_workload, created, filed, Kio}
use kernel_io.Control.{
  Outside, Write, to_num_threads, to_runtime_seconds, to_run_workload, to_var, stores,
}
use kernel_io.Control.Running.{run_workload_stuck}
use kernel_io.Control.Safety.{Trusted}
use kernel_io.Control.Reached.{Reached, initialised}
use kernel_io.Tests.Data.{power, two, config, small_parse}
use kernel_io.Tests.Configs.{config-IsAllocated, config-AcceptableConfig, parse-lt}
use kernel_io.Tests.Lifecycle.{kernel, scan, scan-lt, empty, loaded, quiet, no_memory, pages}

abbrev pub outside : Outside
outside = record {
  kernel = kernel;
  sscanf = scan;
  kstrtol = small_parse;
  is_power_of_2 = power;
  dev_size = 2 ^ 30;
  env = quiet;
}

pub outside-Trusted : Trusted outside
outside-Trusted = record {
  sscanf_fits = scan-lt;
  kstrtol_fits = parse-lt;
  dev_fits = omega arith;
  all_start = λ i. refl;
}

abbrev writes : List Write
writes =
    to_num_threads (4 ∷ []) 2
    ∷ to_runtime_seconds (9 ∷ []) 2
    ∷ to_run_workload 2
    ∷ to_var 7 kio_queue_depth (9 ∷ []) 2
    ∷ []

abbrev busy : Kio
busy = record loaded { kio_running = true }

abbrev pub capped_config : KioConfig
capped_config = record config { threads = some (map (capped (2 ^ 30)) two) }

run_workload_stuck_example :
    stores (record outside { env = no_memory }) (to_run_workload 2 ∷ writes) loaded
    ≡ done (
      ok 2 ∷ err ebusy ∷ err ebusy ∷ err ebusy ∷ err ebusy ∷ [],
      record loaded { config = capped_config; kio_running = true },
    )
run_workload_stuck_example =
    run_workload_stuck (record outside { env = no_memory }) loaded two config-IsAllocated pages
      (omega arith) 2 capped_config writes refl
      (kio_config_is_valid_complete power (2 ^ 30) 4 (omega arith) config two config-IsAllocated
        config-AcceptableConfig)
      (inl refl)

-- The module after its initialisation.
abbrev pub fresh : Kio
fresh = record empty {
  config = record empty.config { runtime_seconds = 0 };
  trace = filed 0 run_workload ∷ filed 0 runtime_seconds ∷ filed 0 num_threads ∷ created 0 ∷ [];
}

pub fresh-Reached : Reached fresh
unfolding kio_config_init create_files
fresh-Reached = initialised kernel empty refl
