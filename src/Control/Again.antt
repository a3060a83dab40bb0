-- ===== src/Control/Again.antt =====
-- A write to `run_workload`, repeated.
use kernel_io.Common.{
  ℕ, ◌<◌, ◌^◌, ◌≡◌, Bool-cases, inl, inr, true, false, List, arith, done, ok, some, ◌==◌,
  Exec-cases, u32, replicate, refl, zero, suc,
}
use kernel_io.Config.Types.{KioThreadConfig, KioConfig, IsAllocated}
use kernel_io.Config.Valid.{kio_config_is_valid}
use kernel_io.Config.Valid.Verdict.{kio_config_is_valid-total, kio_config_is_valid_sound}
use kernel_io.Config.Valid.Again.{valid_again}
use kernel_io.Kernel.{Kio}
use kernel_io.Run.Session.{Outcome, kio_run}
use kernel_io.Control.{Outside, kio_run_workload_store, to_run_workload, store, stores}

module _ (o : Outside) (dev_fits : o.dev_size < 2 ^ 64) (s : Kio) (ths : List KioThreadConfig)
    (a : IsAllocated s.config ths) where
  -- What a write does that validation accepts and whose run returns.
  pub run_workload_runs :
      (count : ℕ) (c' : KioConfig) (r : Outcome)
      → s.kio_running ≡ false
      → kio_config_is_valid o.is_power_of_2 o.dev_size o.kernel.num_online_cpus s.config
        ≡ done (true, c')
      → kio_run o.env c' false ≡ done r
      → store o (to_run_workload count) s
        ≡ done (ok (u32 count), record s { config = c'; kio_running = r.kio_running })
  unfolding store kio_run_workload_store
  run_workload_runs count c' r idle valid runs =
      let v =
        kio_config_is_valid_sound o.is_power_of_2 o.dev_size o.kernel.num_online_cpus dev_fits
          s.config ths a c' valid in
      ground (arith, a.allocated, v.threads_min)

  run_again :
      (count n : ℕ) (s' : Kio)
      → kio_run_workload_store o count s ≡ done (ok n, s')
      → s'.kio_running ≡ false
      → kio_run_workload_store o count s' ≡ done (ok n, s')
  unfolding kio_run_workload_store
  run_again count n s' ran idle = elim (Bool-cases s.kio_running) [
    | inl busy ↦ ground arith
    | inr free ↦
        let (good, ths', checked, low) =
          kio_config_is_valid-total o.is_power_of_2 o.dev_size o.kernel.num_online_cpus dev_fits
            s.config ths a in
        let c' = record s.config { threads = some ths' } in
        elim (Bool-cases good) [
          | inr bad ↦ ground (arith, a.allocated)
          | inl good ↦ elim (Bool-cases (s.config.num_threads == 0)) [
            | inl none_left ↦ ground (arith, a.allocated)
            | inr some_left ↦ elim (Exec-cases (kio_run o.env c' false)) [
              | inl faults ↦ ground (arith, a.allocated)
              | inr (r, runs) ↦
                  let again =
                    valid_again o.is_power_of_2 o.dev_size o.kernel.num_online_cpus dev_fits
                      s.config ths a c' in
                  ground (arith, a.allocated, again)
            ]
          ]
        ]
  ]

  -- In an allocated configuration, with a device size of 64 bits: if a write to run_workload
  -- succeeds and leaves no run under way, then the same write, any number of times after it and
  -- with the same answers from outside, returns the same each time and leaves the module as the
  -- first one left it, the caps of offset_high included.
  pub run_workload_repeats :
      (count n k : ℕ) (s' : Kio)
      → store o (to_run_workload count) s ≡ done (ok n, s')
      → s'.kio_running ≡ false
      → stores o (replicate k (to_run_workload count)) s' ≡ done (replicate k (ok n), s')
  unfolding store stores
  run_workload_repeats count n zero s' ran idle = refl
  run_workload_repeats count n (suc k) s' ran idle =
      rw (run_again count n s' ran idle, run_workload_repeats count n k s' ran idle)
