-- ===== src/Control/Mutex/Quiet.antt =====
-- What a handler under the mutex finds of a run.
use kernel_io.Common.{
  ℕ, ap, Bool, Exec, none, ◌||◌, ◌==◌, not, ◌>>=◌, ◌≡◌, ◌≢◌, inl, inr, ◌∙◌, true, false, some, List,
  All, All-get_elem?, get_elem?, done, u32, ok, Result, err, ebusy, >>=-eq-done, Bool-cases, arith,
}
use mathlib.Core.Path.{subst}
use kernel_io.Kernel.{Kio}
use kernel_io.Config.Valid.{kio_config_is_valid}
use kernel_io.Config.Threads.{is_set}
use kernel_io.Config.Threads.Frames.{num_threads_store-Kept}
use kernel_io.Config.Types.{KioConfig}
use kernel_io.Run.Session.{Outcome, kio_run}
use kernel_io.Run.Session.Clears.{kio_run-clears}
use kernel_io.Control.{Outside, run_valid, store, kio_runtime_seconds_store, kio_run_workload_store}
use kernel_io.Control.Mutex.{
  Call, sets_num_threads, sets_runtime_seconds, runs_workload, as_write, returned, Callers,
  CallersReach,
}
use kernel_io.Control.Mutex.Serial.{Recorded, InTurn, nobody, then_stores, CallersReach-Serial}

-- Runs get their memory and their threads.
abbrev pub Granted : Outside → Type 0
Granted o = (o.env.memory ≡ true) × ((i : ℕ) → o.env.kthread_run i ≡ none)

-- No file of a thread is created, so no error of the kernel is passed on.
abbrev pub Plain : Call → Type 0
Plain (sets_num_threads buf count) = ⊥
Plain (sets_runtime_seconds buf count) = Unit
Plain (runs_workload count) = Unit

run_valid_clears :
    (o : Outside) (count : ℕ) (s s' : Kio) (v : Bool × KioConfig) (r : Result ℕ)
    → Granted o
    → s.kio_running ≡ false
    → run_valid o.env count s v ≡ done (r, s')
    → (s'.kio_running ≡ false) × (r ≢ err ebusy)
run_valid_clears o count s s' (false, c) r granted idle h = (ground arith, λ e. ground arith)
run_valid_clears o count s s' (true, c) r (memory, all_start) idle h =
    let leave : Outcome → Exec (Result ℕ × Kio) =
      λ out. done (ok (u32 count), record s { config = c; kio_running = out.kio_running }) in
    let (out, ran, last) = >>=-eq-done (kio_run o.env c s.kio_running) leave h in
    let clear = kio_run-clears o.env all_start memory c out (rw idle at ran) in
    (ground arith, λ e. ground arith)

run_workload_clears :
    (o : Outside) (count : ℕ) (s s' : Kio) (r : Result ℕ)
    → Granted o
    → s.kio_running ≡ false
    → kio_run_workload_store o count s ≡ done (r, s')
    → (s'.kio_running ≡ false) × (r ≢ err ebusy)
unfolding kio_run_workload_store
run_workload_clears o count s s' r granted idle h =
    elim (Bool-cases (s.config.num_threads == 0 || not (is_set s.config.threads))) [
      | inl childless ↦ (ground arith, λ e. ground arith)
      | inr threads ↦
          let valid =
            kio_config_is_valid o.is_power_of_2 o.dev_size o.kernel.num_online_cpus s.config in
          let goes : (valid >>= run_valid o.env count s) ≡ done (r, s') = ground arith in
          let (v, verdict, rest) = >>=-eq-done valid (run_valid o.env count s) goes in
          run_valid_clears o count s s' v r granted idle rest
    ]

store_clears :
    (o : Outside) (call : Call) (s s' : Kio) (r : Result ℕ)
    → Granted o
    → s.kio_running ≡ false
    → store o (as_write call) s ≡ done (r, s')
    → (s'.kio_running ≡ false) × (Plain call → r ≢ err ebusy)
unfolding store kio_runtime_seconds_store
store_clears o (sets_num_threads buf count) s s' r granted idle h =
    let kept = num_threads_store-Kept o.kernel o.sscanf buf count s (r, s') h in
    (kept.1 ∙ idle, λ plain. absurd plain)
store_clears o (sets_runtime_seconds buf count) s s' r granted idle h =
    (ground arith, λ plain e. ground arith)
store_clears o (runs_workload count) s s' r granted idle h =
    let (clear, free) = run_workload_clears o count s s' r granted idle h in (clear, λ plain. free)

module _ (calls : List (Outside × Call)) (kio : Kio) (granted : All (λ c. Granted c.0) calls)
    (idle : kio.kio_running ≡ false) where
  InTurn-clears :
      {turns : List (ℕ × Result ℕ)} {s : Kio} → InTurn calls kio turns s → s.kio_running ≡ false
  InTurn-clears nobody = idle
  InTurn-clears (then_stores k o call r {s = s} {s' = s'} ts called fresh run) =
      (store_clears o call s s' r (All-get_elem? (λ c. Granted c.0) calls k granted called)
        (InTurn-clears ts) run).0

  InTurn-free :
      {turns : List (ℕ × Result ℕ)} {s : Kio}
      → InTurn calls kio turns s
      → (j : ℕ) (o : Outside) (call : Call) (r : Result ℕ) → get_elem? calls j ≡ some (o, call)
      → Plain call
      → Recorded j r turns
      → r ≢ err ebusy
  InTurn-free nobody j o call r called plain rec = absurd rec
  InTurn-free (then_stores k o' call' r' {s = s} {s' = s'} ts called' fresh run) j o call r called
        plain (inr earlier) =
      InTurn-free ts j o call r called plain earlier
  InTurn-free (then_stores k o' call' r' {s = s} {s' = s'} ts called' fresh run) j o call r called
        plain (inl same) =
      let this =
        (store_clears o' call' s s' r' (All-get_elem? (λ c. Granted c.0) calls k granted called')
          (InTurn-clears ts) run).1 in
      let at_k : k ≡ j = ap (λ turn. turn.0) same in
      let both : ◌≡◌ {A = Outside × Call} (o, call) (o', call') = ground arith in
      let alike : call ≡ call' = ap (λ c. c.1) both in
      λ e. this (subst Plain alike plain) (ap (λ turn. turn.1) same ∙ e)

  -- For any writes to num_threads, runtime_seconds and run_workload that are under way at the
  -- same time under the mutex, from a state with no run under way, and if every run gets its
  -- memory and its threads: no write to runtime_seconds or run_workload returns EBUSY, whenever
  -- it is made.
  pub never_busy :
      {s : Callers}
      → CallersReach calls kio s
      → (j : ℕ) (o : Outside) (call : Call) (r : Result ℕ) → get_elem? calls j ≡ some (o, call)
      → Plain call
      → get_elem? s.places j ≡ some (returned r)
      → r ≢ err ebusy
  never_busy reach j o call r called plain over =
      let v = CallersReach-Serial calls kio reach in
      InTurn-free v.in_turn j o call r called plain ((v.agrees j r).0 over)
