-- ===== src/Control/Running.antt =====
-- What the handlers do while `kio_running` is set.
use kernel_io.Common.{
  ℕ, ◌<◌, ◌^◌, ◌≡◌, ◌⊎◌, ◌∙◌, ap, refl, true, false, some, List, [], ◌∷◌, arith, All, done, ok, err,
  ebusy, u32,
}
use kernel_io.Config.Types.{KioThreadConfig, KioConfig, IsAllocated}
use kernel_io.Config.Valid.{kio_config_is_valid}
use mathlib.Core.List.{map}
use kernel_io.Config.Valid.Loop.{AllLowered}
use kernel_io.Config.Valid.Lowered.{AllLowered-IsAllocated}
use kernel_io.Config.Valid.Verdict.{kio_config_is_valid-total, kio_config_is_valid_sound}
use kernel_io.Config.Vars.{kio_thread_var_store}
use kernel_io.Config.Threads.{kio_num_threads_store}
use kernel_io.Kernel.{Kio}
use kernel_io.Run.Session.Outcomes.{OnePage, kio_run_stays_running}
use kernel_io.Control.{
  Outside, Write, to_num_threads, to_runtime_seconds, to_run_workload, to_var,
  kio_runtime_seconds_store, kio_run_workload_store, store, stores,
}

pub AllLowered-OnePage :
    (ts ts' : List KioThreadConfig) → AllLowered ts ts' → All OnePage ts → All OnePage ts'
AllLowered-OnePage [] [] low pages = tt
AllLowered-OnePage (t ∷ ts) (t' ∷ ts') low pages =
    (ap (λ u. u.block_size) low.0.0 ∙ pages.0, AllLowered-OnePage ts ts' low.1 pages.1)
AllLowered-OnePage [] (t' ∷ ts') low pages = absurd low
AllLowered-OnePage (t ∷ ts) [] low pages = absurd low

module _ (o : Outside) where
  pub running_refuses :
      (w : Write) (s : Kio) → s.kio_running ≡ true → store o w s ≡ done (err ebusy, s)
  unfolding store kio_runtime_seconds_store kio_run_workload_store kio_num_threads_store
      kio_thread_var_store
  running_refuses (to_num_threads buf count) s running = ground arith
  running_refuses (to_runtime_seconds buf count) s running = ground arith
  running_refuses (to_run_workload count) s running = ground arith
  running_refuses (to_var kobj var_index buf count) s running = ground arith

  -- While kio_running is set, any number of writes to the files of the module are all refused
  -- with EBUSY and leave the module as it was.
  pub running_refuses_all :
      (ws : List Write) (s : Kio)
      → s.kio_running ≡ true
      → stores o ws s ≡ done (map (λ w. err ebusy) ws, s)
  unfolding stores
  running_refuses_all [] s running = refl
  running_refuses_all (w ∷ ws) s running =
      rw (running_refuses w s running, running_refuses_all ws s running)

  module _ (s : Kio) (ths : List KioThreadConfig) (a : IsAllocated s.config ths)
      (pages : All OnePage ths) (dev_fits : o.dev_size < 2 ^ 64) where
    run_workload_stays_running :
        (count : ℕ) (c' : KioConfig)
        → s.kio_running ≡ false
        → kio_config_is_valid o.is_power_of_2 o.dev_size o.kernel.num_online_cpus s.config
          ≡ done (true, c')
        → (o.env.memory ≡ false) ⊎ ((e : ℕ) × (o.env.kthread_run 0 ≡ some e))
        → kio_run_workload_store o count s
          ≡ done (ok (u32 count), record s { config = c'; kio_running = true })
    unfolding kio_run_workload_store
    run_workload_stays_running count c' idle valid fails =
        let (good, ths', checked, low) =
          kio_config_is_valid-total o.is_power_of_2 o.dev_size o.kernel.num_online_cpus dev_fits
            s.config ths a in
        let acceptable =
          kio_config_is_valid_sound o.is_power_of_2 o.dev_size o.kernel.num_online_cpus dev_fits
            s.config ths a c' valid in
        let same : c' ≡ record s.config { threads = some ths' } = ground arith in
        let a' = AllLowered-IsAllocated ths ths' s.config low a in
        let (e, run) =
          kio_run_stays_running o.env (record s.config { threads = some ths' }) ths' a'
            (AllLowered-OnePage ths ths' low pages) false (omega (arith, acceptable.threads_min))
            fails in
        ground (arith, a.allocated, acceptable.threads_min, run)

    -- An allocated configuration with blocks of one page that kio_config_is_valid accepts, no run
    -- being under way: if there is no memory for the threads or the first one cannot be started,
    -- then the write to run_workload reports success, kio_running stays set, and every write
    -- after it, to any file of the module, is refused with EBUSY and changes nothing.
    pub run_workload_stuck :
        (count : ℕ) (c' : KioConfig) (ws : List Write)
        → s.kio_running ≡ false
        → kio_config_is_valid o.is_power_of_2 o.dev_size o.kernel.num_online_cpus s.config
          ≡ done (true, c')
        → (o.env.memory ≡ false) ⊎ ((e : ℕ) × (o.env.kthread_run 0 ≡ some e))
        → stores o (to_run_workload count ∷ ws) s
          ≡ done (
            ok (u32 count) ∷ map (λ w. err ebusy) ws,
            record s { config = c'; kio_running = true },
          )
    unfolding stores store
    run_workload_stuck count c' ws idle valid fails = rw (
      run_workload_stays_running count c' idle valid fails,
      running_refuses_all ws (record s { config = c'; kio_running = true }) refl,
    )
