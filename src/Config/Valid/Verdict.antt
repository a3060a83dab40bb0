-- ===== src/Config/Valid/Verdict.antt =====
-- `kio_config_is_valid` as a whole.
use kernel_io.Common.{
  ℕ, ◌^◌, ◌≤◌, ◌<◌, ◌≡◌, ◌↔◌, sym, ap, ◌∙◌, Bool, true, false, ◌&&◌, Bool-cases, inl, inr, List, [],
  some, arith, if◌then◌else◌, done, All,
}
use mathlib.Core.List.{map}
use kernel_io.Config.Types.{KioThreadConfig, KioConfig, IsAllocated, kio_max_runtime_seconds}
use kernel_io.Config.Valid.{kio_config_is_valid, check_threads, check_var}
use kernel_io.Config.Valid.Thread.{Acceptable, capped}
use kernel_io.Config.Valid.Loop.{
  sweep, AllLowered, check_threads-eq-sweep, sweep_sound, sweep_complete, sweep-Lowered,
  AllLowered-refl,
}

-- What a configuration must meet to be run.
pub record AcceptableConfig (is_power_of_2 : ℕ → Bool) (dev_size cpus : ℕ) (c : KioConfig)
    (ths : List KioThreadConfig) : Type 0 where
  pub threads_min : 1 ≤ c.num_threads
  pub threads_max : c.num_threads ≤ cpus
  pub runtime_min : 1 ≤ c.runtime_seconds
  pub runtime_max : c.runtime_seconds ≤ kio_max_runtime_seconds
  pub each : All (Acceptable is_power_of_2 dev_size) ths

module _ (is_power_of_2 : ℕ → Bool) (dev_size cpus : ℕ) (dev_fits : dev_size < 2 ^ 64)
    (c : KioConfig) (ths : List KioThreadConfig) (a : IsAllocated c ths) where
  loop-eq-sweep :
      check_threads is_power_of_2 dev_size c.num_threads 0 ths
      ≡ done (sweep is_power_of_2 dev_size ths)
  loop-eq-sweep = rw (← a.counted) (check_threads-eq-sweep is_power_of_2 dev_size [] ths)

  in_bounds : Bool
  in_bounds =
      check_var c.num_threads 1 cpus && check_var c.runtime_seconds 1 kio_max_runtime_seconds

  -- The two checks of the configuration, then the pass over the threads.
  kio_config_is_valid-eq : kio_config_is_valid is_power_of_2 dev_size cpus c ≡ (
      if in_bounds
      then done (
        (sweep is_power_of_2 dev_size ths).0,
        record c { threads = some (sweep is_power_of_2 dev_size ths).1 },
      )
      else done (false, c))
  unfolding kio_config_is_valid in_bounds
  kio_config_is_valid-eq = ground (arith, a.allocated, loop-eq-sweep)

  -- For an allocated configuration and a device size of 64 bits kio_config_is_valid never faults,
  -- and whatever its verdict it leaves the same configuration but for some offset_high that are
  -- lower.
  pub kio_config_is_valid-total :
      (good : Bool) × (ths' : List KioThreadConfig) × (kio_config_is_valid is_power_of_2 dev_size
          cpus c
        ≡ done (good, record c { threads = some ths' }))
      × AllLowered ths ths'
  kio_config_is_valid-total = elim (Bool-cases in_bounds) [
    | inl inside ↦ (
      (sweep is_power_of_2 dev_size ths).0,
      (sweep is_power_of_2 dev_size ths).1,
      ground (arith, kio_config_is_valid-eq),
      sweep-Lowered is_power_of_2 dev_size dev_fits ths a.fits,
    )
    | inr outside ↦
        (false, ths, ground (arith, kio_config_is_valid-eq, a.allocated), AllLowered-refl ths)
  ]

  pub kio_config_is_valid_sound :
      (c' : KioConfig)
      → kio_config_is_valid is_power_of_2 dev_size cpus c ≡ done (true, c')
      → AcceptableConfig is_power_of_2 dev_size cpus c ths
  unfolding in_bounds
  kio_config_is_valid_sound c' e = record {
    threads_min = ground (arith, kio_config_is_valid-eq);
    threads_max = ground (arith, kio_config_is_valid-eq);
    runtime_min = ground (arith, kio_config_is_valid-eq);
    runtime_max = ground (arith, kio_config_is_valid-eq);
    each =
        sweep_sound is_power_of_2 dev_size dev_fits ths a.fits
          (ground (arith, kio_config_is_valid-eq));
  }

  pub kio_config_is_valid_complete :
      AcceptableConfig is_power_of_2 dev_size cpus c ths
      → kio_config_is_valid is_power_of_2 dev_size cpus c
        ≡ done (true, record c { threads = some (map (capped dev_size) ths) })
  unfolding in_bounds
  kio_config_is_valid_complete v = ground (
    arith,
    kio_config_is_valid-eq,
    sweep_complete is_power_of_2 dev_size dev_fits ths a.fits v.each,
  )

  -- For an allocated configuration and a device size of 64 bits, kio_config_is_valid returns true
  -- and leaves c' exactly when the configuration meets the specification AcceptableConfig, in
  -- plain numbers, and c' is the configuration with each offset_high capped to the device size
  -- less the block size.
  pub kio_config_is_valid_iff :
      (c' : KioConfig)
      → (kio_config_is_valid is_power_of_2 dev_size cpus c ≡ done (true, c')) ↔ (
          AcceptableConfig is_power_of_2 dev_size cpus c ths
          × (c' ≡ record c { threads = some (map (capped dev_size) ths) }))
  kio_config_is_valid_iff c' =
      (forward, λ h. kio_config_is_valid_complete h.0 ∙ ap (λ d. done (true, d)) (sym h.1))
    where
      forward :
          kio_config_is_valid is_power_of_2 dev_size cpus c ≡ done (true, c')
          → AcceptableConfig is_power_of_2 dev_size cpus c ths
            × (c' ≡ record c { threads = some (map (capped dev_size) ths) })
      forward e =
          let v = kio_config_is_valid_sound c' e in
          (v, ground (arith, kio_config_is_valid_complete v))
