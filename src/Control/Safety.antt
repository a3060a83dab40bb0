-- ===== src/Control/Safety.antt =====
-- No write to a file of the module faults.
use kernel_io.Common.{
  ℕ, ◌<◌, ◌^◌, ◌≡◌, ◌≢◌, ◌⊎◌, inl, inr, sym, refl, Bool, Bool-cases, none, some, List, [], ◌∷◌,
  slt32, arith, Exec, done, Result, ok, err, u32, ◌||◌, ◌==◌,
}
use mathlib.Core.Path.{subst}
use kernel_io.Config.Types.{KioThreadConfig, IsAllocated}
use kernel_io.Config.Valid.Verdict.{kio_config_is_valid-total}
use kernel_io.Config.Vars.Handlers.{store-IsAllocated}
use kernel_io.Config.Threads.{scanned}
use kernel_io.Config.Threads.Create.{
  Setup, unchanged, allocated, left_over, kio_num_threads_store-Setup,
}
use kernel_io.Kernel.{Kio}
use kernel_io.Run.Session.Total.{kio_run-total}
use kernel_io.Control.{
  Outside, Write, to_num_threads, to_runtime_seconds, to_run_workload, to_var, run_valid,
  set_runtime_seconds, kio_runtime_seconds_store, kio_run_workload_store, store,
}
use kernel_io.Config.Valid.Lowered.{AllLowered-IsAllocated}

-- Either no threads are allocated, or as many as `num_threads` says.
abbrev pub WellFormed : Kio → Type 0
WellFormed s = (s.config.threads ≡ none) ⊎ ((ths : List KioThreadConfig) × IsAllocated s.config ths)

-- The files of the variables exist only while threads are allocated.
abbrev pub Served : Write → Kio → Type 0
Served (to_var kobj var_index buf count) s = s.config.threads ≢ none
Served _ s = Unit

-- What the functions return is of its type, and every thread starts.
pub record Trusted (o : Outside) : Type 0 where
  pub sscanf_fits : (buf : List ℕ) (n : ℕ) → o.sscanf buf ≡ some n → n < 2 ^ 32
  pub kstrtol_fits : (buf : List ℕ) (v : ℕ) → o.kstrtol buf ≡ ok v → v < 2 ^ 64
  pub dev_fits : o.dev_size < 2 ^ 64
  pub all_start : (i : ℕ) → o.env.kthread_run i ≡ none

Setup-WellFormed :
    (o : Outside) (s : Kio) (r : Result ℕ) (s' : Kio)
    → WellFormed s
    → Setup o.kernel s r s'
    → WellFormed s'
Setup-WellFormed o s r s' wf (unchanged e refused same) = subst WellFormed (sym same) wf
Setup-WellFormed o s r s' wf (allocated count ths made a low high null) = inr (ths, a)
Setup-WellFormed o s r s' wf (left_over e failed null num) = inl null

-- The array does not depend on the time of a run.
set_runtime_seconds-WellFormed :
    (n : ℕ) (s : Kio) → WellFormed s → WellFormed (set_runtime_seconds n s)
set_runtime_seconds-WellFormed n s (inl null) = inl null
set_runtime_seconds-WellFormed n s (inr (ths, a)) =
    inr (ths, record { allocated = a.allocated; counted = a.counted; fits = a.fits })

module _ (o : Outside) (ok_outside : Trusted o) where
  -- The call returns, and leaves the module well formed.
  abbrev Returns : Exec (Result ℕ × Kio) → Type 0
  Returns m = (r : Result ℕ) × (s' : Kio) × (m ≡ done (r, s')) × WellFormed s'

  runtime_seconds-Returns :
      (buf : List ℕ) (count : ℕ) (s : Kio)
      → WellFormed s
      → Returns (kio_runtime_seconds_store o buf count s)
  unfolding kio_runtime_seconds_store
  runtime_seconds-Returns buf count s wf =
      let n = scanned (o.sscanf buf) in
      elim (Bool-cases s.kio_running) [
        | inl busy ↦ (err 16, s, ground arith, wf)
        | inr idle ↦ elim (Bool-cases (slt32 n 1 || slt32 3600 n)) [
          | inl bad ↦ (err 75, s, ground arith, wf)
          | inr good ↦ (
            ok (u32 count),
            set_runtime_seconds n s,
            ground arith,
            set_runtime_seconds-WellFormed n s wf,
          )
        ]
      ]

  run_valid-Returns :
      (count : ℕ) (s : Kio) (good : Bool) (ths : List KioThreadConfig)
      → IsAllocated (record s.config { threads = some ths }) ths
      → Returns (run_valid o.env count s (good, record s.config { threads = some ths }))
  run_valid-Returns count s good ths a = elim (Bool-cases good) [
    | inr bad ↦ (
      err 8,
      record s { config = record s.config { threads = some ths } },
      ground arith,
      inr (ths, a),
    )
    | inl accepted ↦
        let (r, run) =
          kio_run-total o.env (record s.config { threads = some ths }) ths s.kio_running a
            ok_outside.all_start in
        (
          ok (u32 count),
          record s { config = record s.config { threads = some ths }; kio_running = r.kio_running },
          ground arith,
          inr (ths, a),
        )
  ]

  run_workload-Returns :
      (count : ℕ) (s : Kio) → WellFormed s → Returns (kio_run_workload_store o count s)
  unfolding kio_run_workload_store
  run_workload-Returns count s (inl null) = elim (Bool-cases s.kio_running) [
    | inl busy ↦ (err 16, s, ground arith, inl null)
    | inr idle ↦ (err 10, s, ground arith, inl null)
  ]
  run_workload-Returns count s (inr (ths, a)) = elim (Bool-cases s.kio_running) [
    | inl busy ↦ (err 16, s, ground arith, inr (ths, a))
    | inr idle ↦ elim (Bool-cases (s.config.num_threads == 0)) [
      | inl none_left ↦ (err 10, s, ground arith, inr (ths, a))
      | inr some_left ↦
          let (good, ths', checked, low) =
            kio_config_is_valid-total o.is_power_of_2 o.dev_size o.kernel.num_online_cpus
              ok_outside.dev_fits s.config ths a in
          let (r, s', run, wf) =
            run_valid-Returns count s good ths' (AllLowered-IsAllocated ths ths' s.config low a) in
          (r, s', ground (arith, a.allocated), wf)
    ]
  ]

  -- Whatever is written to the files of a well-formed module, the handler returns and leaves a
  -- well-formed module.
  pub store-WellFormed :
      (w : Write) (s : Kio)
      → WellFormed s
      → Served w s
      → (r : Result ℕ) × (s' : Kio) × (store o w s ≡ done (r, s')) × WellFormed s'
  unfolding store
  store-WellFormed (to_num_threads buf count) s wf served =
      let (r, s', run, setup) =
        kio_num_threads_store-Setup o.kernel o.sscanf ok_outside.sscanf_fits s buf count in
      (r, s', run, Setup-WellFormed o s r s' wf setup)
  store-WellFormed (to_runtime_seconds buf count) s wf served =
      runtime_seconds-Returns buf count s wf
  store-WellFormed (to_run_workload count) s wf served = run_workload-Returns count s wf
  store-WellFormed (to_var kobj var_index buf count) s (inl null) served = absurd (served null)
  store-WellFormed (to_var kobj var_index buf count) s (inr (ths, a)) served =
      let (r, c', ths', run, a') =
        store-IsAllocated o.kstrtol (λ n. n ∷ []) s.config ths a ok_outside.kstrtol_fits
          s.kio_running kobj buf count var_index in
      (r, record s { config = c' }, rw run refl, inr (ths', a'))
