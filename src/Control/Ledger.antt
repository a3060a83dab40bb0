-- ===== src/Control/Ledger.antt =====
-- What the module has created and allocated, from its initialisation to its exit.
use kernel_io.Common.{
  ℕ, ◌≡◌, ◌≢◌, ◌⊎◌, ◌∙◌, refl, sym, ap, inl, inr, Option, Option-cases, none, some, List, ◌∷◌,
  arith, done, ◌>>=◌, >>=-eq-done, Result, u32,
}
use mathlib.Core.Path.{subst}
use native.Mathlib.Decide.{ℕ_discrete}
use kernel_io.Config.Types.{KioThreadConfig}
use kernel_io.Config.Vars.{kio_thread_var_store}
use kernel_io.Config.Ledger.{arrays, Balanced, Settled, SameHoldings-Balanced, put_all-counts}
use kernel_io.Config.Ledger.Threads.{num_threads_store-Balanced}
use kernel_io.Config.Threads.{kio_num_threads_store}
use kernel_io.Config.Threads.Create.{unchanged, allocated, left_over, kio_num_threads_store-Setup}
use kernel_io.Config.Threads.Destroy.{put_all, destroy_all_threads-eq, destroy_all_threads-none}
use kernel_io.Config.Threads.Failure.{left_over_threads}
use kernel_io.Config.Module.{kio_config_exit, put_module}
use kernel_io.Config.Module.Kobjects.{Initialises, kio_config_init-Initialises}
use kernel_io.Kernel.{Kio, freed}
use kernel_io.Control.{
  Outside, Write, to_num_threads, to_runtime_seconds, to_run_workload, to_var, store,
}
use kernel_io.Control.Safety.{WellFormed, Served, Trusted}
use kernel_io.Control.Reached.{Reached, initialised, written, Reached-WellFormed, exit_left_over}
use kernel_io.Control.Untouched.{
  Untouched, runtime_seconds-Untouched, run_workload-Untouched, var-Untouched,
}

-- Balanced since `b`; or a number of threads is left over.
abbrev Kept : Kio → Kio → Type 0
Kept b s = Balanced b s ⊎ ((s.config.threads ≡ none) × (s.config.num_threads ≢ 0))

arrays-none : (threads : Option (List KioThreadConfig)) → arrays threads ≡ 0 → threads ≡ none
arrays-none none h = refl
arrays-none (some ths) h = absurd (omega arith)

Untouched-Kept : (b s s' : Kio) → Untouched s s' → Kept b s → Kept b s'
Untouched-Kept b s s' (same, num) (inl v) = inl (SameHoldings-Balanced b s s' same v)
Untouched-Kept b s s' (same, num) (inr (null, left)) =
    inr (arrays-none s'.config.threads (same.memory ∙ ap arrays null), λ e. left (sym num ∙ e))

module _ (o : Outside) (trusted : Trusted o) (b : Kio) where
  num_threads-Kept :
      (buf : List ℕ) (count : ℕ) (s s' : Kio) (r : Result ℕ)
      → kio_num_threads_store o.kernel o.sscanf buf count s ≡ done (r, s')
      → Kept b s
      → Kept b s'
  num_threads-Kept buf count s s' r h (inr (null, left)) =
      let same = (left_over_threads o.kernel o.sscanf buf count s null left).0 in
      let there : s' ≡ s = cc in subst (Kept b) (sym there) (inr (null, left))
  num_threads-Kept buf count s s' r h (inl v) =
      let (r0, s0, run, setup) =
        kio_num_threads_store-Setup o.kernel o.sscanf trusted.sscanf_fits s buf count in
      let there : s0 ≡ s' = cc in
      elim setup [
        | unchanged e refused same ↦ subst (Kept b) (sym same ∙ there) (inl v)
        | left_over e refused null left ↦ subst (Kept b) there (inr (null, left))
        | allocated n ths fine a low high null ↦
            inl (num_threads_store-Balanced o.kernel b o.sscanf buf count (u32 n) s s' (cc) v)
      ]

  store-Kept :
      (w : Write) (s s' : Kio) (r : Result ℕ)
      → WellFormed s
      → Served w s
      → store o w s ≡ done (r, s')
      → Kept b s
      → Kept b s'
  unfolding store
  store-Kept (to_num_threads buf count) s s' r wf served h = num_threads-Kept buf count s s' r h
  store-Kept (to_runtime_seconds buf count) s s' r wf served h =
      Untouched-Kept b s s' (runtime_seconds-Untouched o buf count s s' r h)
  store-Kept (to_run_workload count) s s' r wf served h =
      Untouched-Kept b s s' (run_workload-Untouched o trusted count s s' r wf h)
  store-Kept (to_var kobj x buf count) s s' r (inl null) served h = absurd (served null)
  store-Kept (to_var kobj x buf count) s s' r (inr (ths, a)) served h =
      let (q, ran, rest) =
        >>=-eq-done (kio_thread_var_store o.kstrtol s.kio_running s.config kobj buf count x) _ h in
      let left : record s { config = q.1 } ≡ s' = ground arith in
      subst (λ u. Kept b s → Kept b u) left
        (Untouched-Kept b s (record s { config = q.1 })
          (var-Untouched o trusted kobj x buf count s ths q.0 q.1 a ran))

-- The state before the initialisation that all began with.
abbrev pub origin : {s : Kio} → Reached s → Kio
origin (initialised kernel before h) = before
origin (written o w r trusted reached served run) = origin reached

Reached-Kept : (s : Kio) (reached : Reached s) → Kept (origin reached) s
Reached-Kept s (initialised kernel before h) =
    inl (subst (Initialises before) h (kio_config_init-Initialises kernel before)).0
Reached-Kept s' (written o w {s = s} r trusted reached served run) =
    store-Kept o trusted (origin reached) w s s' r (Reached-WellFormed s reached) served run
      (Reached-Kept s reached)

put_module-Settled : (b s : Kio) → Balanced b s → s.config.threads ≡ none → Settled b (put_module s)
put_module-Settled b s v null = elim (Option-cases s.kio_kobj) [
  | inl nothing ↦ record {
    kobjects = λ k. ground (arith, v.kobjects k);
    memory = ground (arith, v.memory);
  }
  | inr (j, there) ↦ record {
    kobjects = λ k. ground (arith, v.kobjects k);
    memory = ground (arith, v.memory);
  }
]

destroyed-Balanced :
    (b s : Kio) (ths : List KioThreadConfig)
    → s.config.threads ≡ some ths
    → Balanced b s
    → Balanced b (record s {
      config = record s.config { threads = none };
      trace = freed ∷ put_all ths s.trace;
    })
destroyed-Balanced b s ths there v =
    let (c, p, a, f) = put_all-counts ths s.trace in
    record {
      kobjects = λ k. omega (arith, rw there at (v.kobjects k), c k, p k);
      memory = omega (arith, rw there at v.memory, a, f);
    }

-- From a kio_config_init that succeeds, through any writes to the files of the module, to a
-- kio_config_exit that returns: each kobject has been put exactly as often as it was created, and
-- the memory of the threads freed as often as allocated. Conditions: sscanf and kstrtol return
-- numbers of their types, the size of the device is a 64-bit number, every kthread_run succeeds
-- and every kthread_stop returns, and the file of a variable is written to only while threads are
-- allocated.
pub exit-Settled :
    (s s' : Kio) (reached : Reached s) → kio_config_exit s ≡ done s' → Settled (origin reached) s'
unfolding kio_config_exit
exit-Settled s s' reached run =
    let b = origin reached in
    elim (Reached-Kept s reached) [
      | inr (null, left) ↦ let faults = exit_left_over s null left in cc
      | inl v ↦ elim (Reached-WellFormed s reached) [
        | inr (ths, a) ↦
            let destroyed = destroy_all_threads-eq ths s a.allocated a.counted in
            let left = ap (λ m. m >>= λ u. done (put_module u)) destroyed in
            let there : _ ≡ s' = ground (arith, left) in
            subst (Settled b) there
              (put_module-Settled b _ (destroyed-Balanced b s ths a.allocated v) refl)
        | inl null ↦ elim (ℕ_discrete s.config.num_threads 0) [
          | no some_left ↦ let faults = exit_left_over s null some_left in cc
          | yes none_left ↦
              let destroyed = destroy_all_threads-none s none_left in
              let left = ap (λ m. m >>= λ u. done (put_module u)) destroyed in
              let there : put_module s ≡ s' = ground (arith, left) in
              subst (Settled b) there (put_module-Settled b s v null)
        ]
      ]
    ]
