-- ===== src/Tests/Overlaps.antt =====
-- A write that overlaps a run.
use kernel_io.Common.{◌^◌, ◌≡◌, refl, true, false, some, [], ◌∷◌, arith, done, ok}
use mathlib.Core.List.{map}
use kernel_io.Config.Types.{KioThreadConfig, KioConfig}
use kernel_io.Config.Valid.{kio_config_is_valid}
use kernel_io.Config.Valid.Thread.{capped}
use kernel_io.Config.Valid.Verdict.{kio_config_is_valid_complete}
use kernel_io.Config.Vars.{
  kio_queue_depth, kio_thread_var_store, kio_thread_config_from_kobj, find_kobj, store_at,
  write_var,
}
use kernel_io.Control.Overlap.{Overlaps, waiting, launched, outside, stored}
use kernel_io.Control.Overlap.Race.{overlapping_write}
use kernel_io.Tests.Data.{power, sequential, random_reads, two, config, small_parse}
use kernel_io.Tests.Configs.{config-IsAllocated, config-AcceptableConfig, parse-lt}
use kernel_io.Tests.Writes.{outside as world}

abbrev pub settings : KioThreadConfig
settings = capped (2 ^ 30) sequential

abbrev capped_config : KioConfig
capped_config = record config { threads = some (map (capped (2 ^ 30)) two) }

abbrev depthless : KioConfig
depthless = record config {
  threads = some (record settings { queue_depth = 0 } ∷ capped (2 ^ 30) random_reads ∷ []);
}

store_depthless :
    kio_thread_var_store small_parse false capped_config 7 (4294967296 ∷ []) 2 kio_queue_depth
    ≡ done (ok 2, depthless)
unfolding kio_thread_var_store kio_thread_config_from_kobj find_kobj store_at write_var
store_depthless = refl

overlapping_write_example :
    Overlaps world 7 kio_queue_depth
      (4294967296 ∷ [])
      2
      (record { config = config; kio_running = false; runner = waiting; writer = outside })
      (record { config = depthless; kio_running = true; runner = launched; writer = stored })
    × ((left : KioConfig) × (kio_config_is_valid power (2 ^ 30) 4 depthless ≡ done (false, left)))
overlapping_write_example =
    overlapping_write world (omega arith) parse-lt config capped_config depthless two
      (map (capped (2 ^ 30)) two) 7 (4294967296 ∷ []) 2 2 4294967296 config-IsAllocated
      (kio_config_is_valid_complete power (2 ^ 30) 4 (omega arith) config two config-IsAllocated
        config-AcceptableConfig)
      refl (ground arith) refl refl store_depthless
