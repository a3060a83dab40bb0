-- ===== src/Control/Untouched.antt =====
-- The writes that leave alone what the configuration holds: all but those to `num_threads`.
use kernel_io.Common.{
  ℕ, ◌≡◌, refl, sym, ap, inl, inr, Bool, true, false, Bool-cases, some, List, [], ◌∷◌, arith,
  sum_of-set, done, >>=-eq-done, Result, ok, err, slt32, ◌||◌, ◌==◌,
}
use mathlib.Core.Path.{subst}
use kernel_io.Config.Types.{KioThreadConfig, KioConfig, IsAllocated}
use kernel_io.Config.Valid.Loop.{AllLowered}
use kernel_io.Config.Valid.Verdict.{kio_config_is_valid-total}
use kernel_io.Config.Vars.{VarIndex, kio_thread_var_store}
use kernel_io.Config.Vars.Fields.{write_var-kobj}
use kernel_io.Config.Vars.Handlers.{Stores, store-Stores}
use kernel_io.Config.Ledger.{holds, held_by_threads, SameHoldings}
use kernel_io.Config.Threads.{scanned}
use kernel_io.Kernel.{Kio}
use kernel_io.Run.Session.{kio_run}
use kernel_io.Control.{
  Outside, run_valid, set_runtime_seconds, kio_runtime_seconds_store, kio_run_workload_store,
}
use kernel_io.Control.Safety.{WellFormed, Trusted}

-- The configuration holds what it held, and the number of threads is as it was.
abbrev pub Untouched : Kio → Kio → Type 0
Untouched s s' = SameHoldings s s' × (s'.config.num_threads ≡ s.config.num_threads)

same-Untouched : (s s' : Kio) → s' ≡ s → Untouched s s'
same-Untouched s s' e =
    subst (Untouched s) (sym e) (record { trace = refl; kobjects = λ k. refl; memory = refl }, refl)

Lowered-held :
    (k : ℕ) (ths ths' : List KioThreadConfig)
    → AllLowered ths ths'
    → held_by_threads k ths' ≡ held_by_threads k ths
Lowered-held k [] [] low = refl
Lowered-held k (t ∷ ts) (t' ∷ ts') ((same, less), low) =
    let kobj : t'.kobj ≡ t.kobj = ap (λ u. u.kobj) same in
    let first = ap (holds k) kobj in omega (arith, first, Lowered-held k ts ts' low)
Lowered-held k [] (t' ∷ ts') low = absurd low
Lowered-held k (t ∷ ts) [] low = absurd low

pub runtime_seconds-Untouched :
    (o : Outside) (buf : List ℕ) (count : ℕ) (s s' : Kio) (r : Result ℕ)
    → kio_runtime_seconds_store o buf count s ≡ done (r, s')
    → Untouched s s'
unfolding kio_runtime_seconds_store
runtime_seconds-Untouched o buf count s s' r h =
    let n = scanned (o.sscanf buf) in
    elim (Bool-cases s.kio_running) [
      | inl busy ↦ same-Untouched s s' (ground arith)
      | inr idle ↦ elim (Bool-cases (slt32 n 1 || slt32 3600 n)) [
        | inl bad ↦ same-Untouched s s' (ground arith)
        | inr good ↦
            let left : s' ≡ set_runtime_seconds n s = ground arith in
            subst (Untouched s) (sym left)
              (record { trace = refl; kobjects = λ k. refl; memory = refl }, refl)
      ]
    ]

module _ (o : Outside) (trusted : Trusted o) where
  -- A run changes no configuration.
  run_valid-frame :
      (count : ℕ) (s s' : Kio) (r : Result ℕ) (good : Bool) (c : KioConfig)
      → run_valid o.env count s (good, c) ≡ done (r, s')
      → (s'.trace ≡ s.trace) × (s'.kio_kobj ≡ s.kio_kobj) × (s'.config ≡ c)
  run_valid-frame count s s' r false c h = ground arith
  run_valid-frame count s s' r true c h =
      let (out, ran, rest) = >>=-eq-done (kio_run o.env c s.kio_running) _ h in ground arith

  -- Validation may lower ends of the offsets.
  run_valid-Untouched :
      (count : ℕ) (s s' : Kio) (r : Result ℕ) (good : Bool) (ths ths' : List KioThreadConfig)
      → s.config.threads ≡ some ths
      → AllLowered ths ths'
      → run_valid o.env count s (good, record s.config { threads = some ths' }) ≡ done (r, s')
      → Untouched s s'
  run_valid-Untouched count s s' r good ths ths' at_threads low h =
      let (trace, kobj, config) =
        run_valid-frame count s s' r good (record s.config { threads = some ths' }) h in
      (
        record {
          trace = trace;
          kobjects =
              λ k. rw (kobj, config, at_threads) (omega (arith, Lowered-held k ths ths' low));
          memory = rw (config, at_threads) refl;
        },
        rw config refl,
      )

  pub run_workload-Untouched :
      (count : ℕ) (s s' : Kio) (r : Result ℕ)
      → WellFormed s
      → kio_run_workload_store o count s ≡ done (r, s')
      → Untouched s s'
  unfolding kio_run_workload_store
  run_workload-Untouched count s s' r (inl null) h = elim (Bool-cases s.kio_running) [
    | inl busy ↦ same-Untouched s s' (ground arith)
    | inr idle ↦ same-Untouched s s' (ground arith)
  ]
  run_workload-Untouched count s s' r (inr (ths, a)) h = elim (Bool-cases s.kio_running) [
    | inl busy ↦ same-Untouched s s' (ground arith)
    | inr idle ↦ elim (Bool-cases (s.config.num_threads == 0)) [
      | inl none_left ↦ same-Untouched s s' (ground arith)
      | inr some_left ↦
          let (good, ths', checked, low) =
            kio_config_is_valid-total o.is_power_of_2 o.dev_size o.kernel.num_online_cpus
              trusted.dev_fits s.config ths a in
          run_valid-Untouched count s s' r good ths ths' a.allocated low
            (ground (arith, a.allocated))
    ]
  ]

  pub var-Untouched :
      (kobj : ℕ) (x : VarIndex) (buf : List ℕ) (count : ℕ) (s : Kio) (ths : List KioThreadConfig)
      (r : Result ℕ) (c' : KioConfig)
      → IsAllocated s.config ths
      → kio_thread_var_store o.kstrtol s.kio_running s.config kobj buf count x ≡ done (r, c')
      → Untouched s (record s { config = c' })
  var-Untouched kobj x buf count s ths (err e) c' a h =
      let same : c' ≡ s.config =
        subst (Stores o.kstrtol (λ n. n ∷ []) s.config ths kobj buf count x) h
          (store-Stores o.kstrtol (λ n. n ∷ []) s.config ths a s.kio_running kobj buf count x) in
      same-Untouched s (record s { config = c' }) (ap (λ c. record s { config = c }) same)
  var-Untouched kobj x buf count s ths (ok n) c' a h =
      let (counted, v) =
        subst (Stores o.kstrtol (λ n. n ∷ []) s.config ths kobj buf count x) h
          (store-Stores o.kstrtol (λ n. n ∷ []) s.config ths a s.kio_running kobj buf count x) in
      let kept = write_var-kobj x v.value v.old v.written in
      (
        record {
          trace = refl;
          kobjects = λ k.
              let sums = sum_of-set (λ t. holds k t.kobj) ths v.index v.old v.new v.there in
              let one = ap (holds k) kept in rw (v.left, a.allocated) (omega (arith, sums, one));
          memory = rw (v.left, a.allocated) refl;
        },
        rw v.left refl,
      )
