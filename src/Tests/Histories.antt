-- ===== src/Tests/Histories.antt =====
-- Histories of writes and reads.
use kernel_io.Common.{
  ℕ, ◌≡◌, refl, List, [], ◌∷◌, arith, done, fault, Result, ok, err, enomem, eoverflow,
}
use kernel_io.Config.Threads.{
  create_files, kio_config_create_thread, create_threads, destroy_threads,
  kio_config_destroy_all_threads, kio_num_threads_store,
}
use kernel_io.Config.Module.{kio_config_exit}
use kernel_io.Kernel.{Kio, zalloc, created, put, freed}
use kernel_io.Control.{
  Outside, Write, to_num_threads, to_runtime_seconds, to_run_workload, store, stores,
}
use kernel_io.Control.Safety.{Trusted}
use kernel_io.Control.Show.{from_runtime_seconds, from_run_workload, show}
use kernel_io.Control.Show.Total.{Reached-accesses_return}
use kernel_io.Control.Reached.{Reached}
use kernel_io.Control.Runtime.{runtime_written_back}
use kernel_io.Control.LeftOver.{Answers, left_over_forever}
use kernel_io.Tests.Lifecycle.{fileless, scan, scan-lt, empty}
use kernel_io.Tests.Writes.{outside, outside-Trusted, fresh, fresh-Reached}

-- A time that has not been set reads as 0, which no write sets.
runtime_written_back_example :
    (text : List ℕ) × (show (λ n. n ∷ []) (λ n. n ∷ []) from_runtime_seconds fresh ≡ done (ok text))
    × (store outside (to_runtime_seconds text 2) fresh ≡ done (err eoverflow, fresh))
runtime_written_back_example =
    runtime_written_back outside (λ n. n ∷ []) (λ n. n ∷ []) fresh fresh-Reached refl
      (λ n low. ground arith) 2

abbrev without_sysfs : Outside
without_sysfs = record outside { kernel = fileless }

abbrev after : Kio
after = record empty {
  config = record empty.config { num_threads = 1 };
  trace = freed ∷ put 1 ∷ put 1 ∷ created 1 ∷ zalloc 1 ∷ [];
}

failed_setup : kio_num_threads_store fileless scan (1 ∷ []) 2 empty ≡ done (err enomem, after)
unfolding kio_num_threads_store create_threads kio_config_create_thread create_files
    kio_config_destroy_all_threads destroy_threads
failed_setup = refl

without_sysfs-Trusted : Trusted without_sysfs
without_sysfs-Trusted = record {
  sscanf_fits = scan-lt;
  kstrtol_fits = outside-Trusted.kstrtol_fits;
  dev_fits = omega arith;
  all_start = λ i. refl;
}

abbrev retries : List Write
retries = to_num_threads (2 ∷ []) 2 ∷ to_runtime_seconds (9 ∷ []) 2 ∷ to_run_workload 2 ∷ []

left_over_forever_example :
    (rs : List (Result ℕ)) × (s' : Kio) × (stores without_sysfs retries after ≡ done (rs, s'))
    × Answers retries rs
    × (s'.config.num_threads ≡ 1)
    × (kio_config_exit s' ≡ fault)
left_over_forever_example =
    left_over_forever without_sysfs without_sysfs-Trusted (1 ∷ []) 2 enomem empty after failed_setup
      (omega arith) retries (tt, (tt, (tt, tt))) refl

Reached-accesses_return_example :
    ((text : Result (List ℕ)) × (show (λ n. n ∷ []) (λ n. n ∷ []) from_run_workload fresh
        ≡ done text))
    × ((r : Result ℕ) × (s' : Kio) × (store outside (to_num_threads (2 ∷ []) 2) fresh
          ≡ done (r, s'))
        × Reached s')
Reached-accesses_return_example =
    Reached-accesses_return (λ n. n ∷ []) (λ n. n ∷ []) outside (to_num_threads (2 ∷ []) 2)
      from_run_workload fresh outside-Trusted fresh-Reached tt tt
