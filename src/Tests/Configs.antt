-- ===== src/Tests/Configs.antt =====
-- Validation, and the files of a thread.
use kernel_io.Common.{
  ℕ, ◌^◌, ◌<◌, ◌≡◌, ◌↔◌, inl, refl, true, false, some, List, [], ◌∷◌, arith, done, ok,
}
use mathlib.Core.List.{map}
use kernel_io.Config.Types.{KioConfig, IsAllocated}
use kernel_io.Config.Valid.{kio_config_is_valid}
use kernel_io.Config.Valid.Thread.{capped}
use kernel_io.Config.Valid.Verdict.{AcceptableConfig, kio_config_is_valid_iff}
use kernel_io.Config.Vars.{
  kio_block_size, kio_queue_depth, kio_thread_var_show, kio_thread_var_store,
  kio_thread_config_from_kobj, find_kobj, store_at, read_var, write_var,
}
use kernel_io.Config.Vars.RoundTrip.{store-show, show-store}
use kernel_io.Tests.Data.{power, sequential, random_reads, two, config, parse, small_parse, print}

pub config-IsAllocated : IsAllocated config two
config-IsAllocated = record { allocated = refl; counted = refl; fits = omega arith }

pub config-AcceptableConfig : AcceptableConfig power (2 ^ 30) 4 config two
config-AcceptableConfig = record {
  threads_min = omega arith;
  threads_max = omega arith;
  runtime_min = omega arith;
  runtime_max = omega arith;
  each = ground arith;
}

kio_config_is_valid_iff_example :
    (kio_config_is_valid power (2 ^ 30) 4 config
      ≡ done (true, record config { threads = some (map (capped (2 ^ 30)) two) }))
    ↔ (AcceptableConfig power (2 ^ 30) 4 config two
        × (◌≡◌ {A = KioConfig}
            (record config { threads = some (map (capped (2 ^ 30)) two) })
            (record config { threads = some (map (capped (2 ^ 30)) two) })))
kio_config_is_valid_iff_example =
    kio_config_is_valid_iff power (2 ^ 30) 4 (omega arith) config two config-IsAllocated
      (record config { threads = some (map (capped (2 ^ 30)) two) })

pub parse-lt : (buf : List ℕ) (v : ℕ) → small_parse buf ≡ ok v → v < 2 ^ 64
parse-lt buf v h = ground arith

-- Thread 1 with another depth of its queue; 2 ^ 32 + 9 is cut down to 9.
abbrev deeper : KioConfig
deeper = record config {
  threads = some (sequential ∷ record random_reads { queue_depth = 9 } ∷ []);
}

store_deeper :
    kio_thread_var_store parse false config 8 (4294967305 ∷ []) 2 kio_queue_depth
    ≡ done (ok 2, deeper)
unfolding kio_thread_var_store kio_thread_config_from_kobj find_kobj store_at write_var
store_deeper = refl

show-store_example :
    (kio_thread_var_show print deeper 8 kio_queue_depth ≡ done (ok (9 ∷ [])))
    × (kio_thread_var_show print deeper 7 kio_queue_depth
        ≡ kio_thread_var_show print config 7 kio_queue_depth)
show-store_example =
    show-store parse print config two config-IsAllocated false 8 (4294967305 ∷ []) 2 2
      kio_queue_depth deeper store_deeper 4294967305 refl 7 kio_queue_depth (inl (omega arith))

show_size : kio_thread_var_show print config 7 kio_block_size ≡ done (ok (4096 ∷ []))
unfolding kio_thread_var_show kio_thread_config_from_kobj find_kobj read_var
show_size = refl

store-show_example :
    kio_thread_var_store parse false config 7 (4096 ∷ []) 1 kio_block_size ≡ done (ok 1, config)
store-show_example =
    store-show parse print config two config-IsAllocated (λ v _. refl) 7 kio_block_size (4096 ∷ [])
      1 show_size
