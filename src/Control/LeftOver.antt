-- ===== src/Control/LeftOver.antt =====
-- After a write to `num_threads` that has failed and left the number behind.
use kernel_io.Common.{
  ℕ, ◌≡◌, ◌≢◌, ◌⊎◌, ◌∙◌, refl, false, none, Bool-cases, inl, inr, List, [], ◌∷◌, arith, All, done,
  fault, Result, ok, err, eexist, echild, eoverflow, u32, slt32, ◌||◌,
}
use kernel_io.Config.Threads.{scanned, kio_num_threads_store}
use kernel_io.Config.Module.{kio_config_exit}
use kernel_io.Kernel.{Kio}
use kernel_io.Control.{
  Outside, Write, to_num_threads, to_runtime_seconds, to_run_workload, to_var, set_runtime_seconds,
  kio_runtime_seconds_store, kio_run_workload_store, store, stores,
}
use kernel_io.Config.Threads.Create.{unchanged, allocated, left_over, kio_num_threads_store-Setup}
use kernel_io.Config.Threads.Frames.{num_threads_store-Kept}
use kernel_io.Control.Safety.{Trusted}
use kernel_io.Control.Reached.{exit_left_over}

-- A number of threads, none allocated, and no run under way.
pub record LeftOver (s : Kio) : Type 0 where
  pub no_threads : s.config.threads ≡ none
  pub some_number : s.config.num_threads ≢ 0
  pub idle : s.kio_running ≡ false

-- The files that are left: those of the module.
abbrev pub Global : Write → Type 0
Global (to_var kobj var_index buf count) = ⊥
Global _ = Unit

-- What a write to one of them answers.
abbrev pub Answer : Write → Result ℕ → Type 0
Answer (to_num_threads buf count) r = r ≡ err eexist
Answer (to_run_workload count) r = r ≡ err echild
Answer (to_runtime_seconds buf count) r = (r ≡ ok (u32 count)) ⊎ (r ≡ err eoverflow)
Answer (to_var kobj var_index buf count) r = ⊥

-- The answers to some writes.
abbrev pub Answers : List Write → List (Result ℕ) → Type 0
Answers [] [] = Unit
Answers (w ∷ ws) (r ∷ rs) = Answer w r × Answers ws rs
Answers _ _ = ⊥

module _ (o : Outside) where
  store-LeftOver :
      (w : Write) (s : Kio)
      → Global w
      → LeftOver s
      → (r : Result ℕ) × (s' : Kio) × (store o w s ≡ done (r, s'))
        × LeftOver s'
        × (s'.config.num_threads ≡ s.config.num_threads)
        × Answer w r
  unfolding store kio_num_threads_store kio_runtime_seconds_store kio_run_workload_store
  store-LeftOver (to_num_threads buf count) s g v =
      (err eexist, s, ground (arith, v.some_number, v.idle), v, refl, refl)
  store-LeftOver (to_run_workload count) s g v =
      (err echild, s, ground (arith, v.no_threads, v.some_number, v.idle), v, refl, refl)
  store-LeftOver (to_runtime_seconds buf count) s g v =
      let n = scanned (o.sscanf buf) in
      elim (Bool-cases (slt32 n 1 || slt32 3600 n)) [
        | inl bad ↦ (err eoverflow, s, ground (arith, v.idle), v, refl, inr refl)
        | inr good ↦ (
          ok (u32 count),
          set_runtime_seconds n s,
          ground (arith, v.idle),
          record { no_threads = v.no_threads; some_number = v.some_number; idle = v.idle },
          refl,
          inl refl,
        )
      ]
  store-LeftOver (to_var kobj var_index buf count) s g v = absurd g

  stores-LeftOver :
      (ws : List Write) (s : Kio)
      → All Global ws
      → LeftOver s
      → (rs : List (Result ℕ)) × (s' : Kio) × (stores o ws s ≡ done (rs, s'))
        × Answers ws rs
        × LeftOver s'
        × (s'.config.num_threads ≡ s.config.num_threads)
  unfolding stores
  stores-LeftOver [] s g v = ([], s, refl, tt, v, refl)
  stores-LeftOver (w ∷ ws) s g v =
      let (r, s1, one, v1, num1, answer) = store-LeftOver w s g.0 v in
      let (rs, s2, rest, answers, v2, num2) = stores-LeftOver ws s1 g.1 v1 in
      (r ∷ rs, s2, rw (one, rest) refl, (answer, answers), v2, num2 ∙ num1)

  -- A write to `num_threads` that fails and changes the number.
  module _ (trusted : Trusted o) (buf : List ℕ) (count e : ℕ) (s s1 : Kio)
      (failed : kio_num_threads_store o.kernel o.sscanf buf count s ≡ done (err e, s1))
      (changed : s1.config.num_threads ≢ s.config.num_threads) where
    failed-LeftOver : s.kio_running ≡ false → LeftOver s1
    failed-LeftOver idle =
        let (r, s', run, setup) =
          kio_num_threads_store-Setup o.kernel o.sscanf trusted.sscanf_fits s buf count in
        let (time, running) =
          num_threads_store-Kept o.kernel o.sscanf buf count s (err e, s1) failed in
        elim setup [
          | unchanged e' refused same ↦ ground arith
          | allocated n ths made a low high null ↦ ground arith
          | left_over e' refused null num ↦ record {
            no_threads = ground arith;
            some_number = ground arith;
            idle = running ∙ idle;
          }
        ]

    -- No run being under way, and after a store into num_threads that has returned an error and
    -- changed num_threads: any writes to the files of the module return, each to num_threads is
    -- refused with EEXIST and each to run_workload with ECHILD, those to runtime_seconds are
    -- served, num_threads stays as it was left, and kio_config_exit then faults, provided that
    -- sscanf and kstrtol return numbers of their types, the size of the device is a 64-bit
    -- number, and every kthread_run succeeds.
    pub left_over_forever :
        (ws : List Write)
        → All Global ws
        → s.kio_running ≡ false
        → (rs : List (Result ℕ)) × (s' : Kio) × (stores o ws s1 ≡ done (rs, s'))
          × Answers ws rs
          × (s'.config.num_threads ≡ s1.config.num_threads)
          × (kio_config_exit s' ≡ fault)
    left_over_forever ws g idle =
        let (rs, s', run, answers, v, num) = stores-LeftOver ws s1 g (failed-LeftOver idle) in
        (rs, s', run, answers, num, exit_left_over s' v.no_threads v.some_number)
