-- ===== src/Run/Session/Clears.antt =====
-- A run that gets its memory and its threads clears `kio_running`.
use kernel_io.Common.{
  ℕ, zero, suc, ◌+◌, ◌≡◌, Bool-cases, inl, inr, true, false, none, List, [], ◌∷◌, arith, get_elem?,
  done, load, >>=-eq-done, ◌>>=◌,
}
use kernel_io.Config.Types.{KioThreadConfig, KioConfig, cells}
use kernel_io.Run.Thread.{KioThread, task, fresh_thread}
use kernel_io.Run.Session.{
  Environment, Outcome, Started, started, start_threads, stop_threads, stop_and_report, after_start,
  check_block_sizes, kio_run,
}

module _ (env : Environment) (all_start : (i : ℕ) → env.kthread_run i ≡ none) where
  all_started :
      (rounds i : ℕ) (ts : List KioThreadConfig) (st : Started)
      → start_threads env rounds i ts ≡ done st
      → (ths : List KioThread) × (st ≡ started ths)
  unfolding start_threads
  all_started zero i ts st h = ([], ground arith)
  all_started (suc rounds) i ts st h =
      let (t, there, h') = >>=-eq-done (load (get_elem? ts i)) _ h in
      let h'' = rw (all_start i) at h' in
      let (st', rest, same) = >>=-eq-done (start_threads env rounds (i + 1) ts) _ h'' in
      let (ths, is_started) = all_started rounds (i + 1) ts st' rest in
      (record (fresh_thread i t) { thread = task } ∷ ths, ground arith)

  pub kio_run-clears :
      env.memory ≡ true
      → (kc : KioConfig) (o : Outcome) → kio_run env kc false ≡ done o
      → o.kio_running ≡ false
  unfolding kio_run stop_and_report
  kio_run-clears memory kc o h =
      let ts = cells kc.threads in
      let (good, checked, h') = >>=-eq-done (check_block_sizes kc.num_threads 0 ts) _ h in
      elim (Bool-cases good) [
        | inr bad ↦ ground arith
        | inl fine ↦
            let granted : (start_threads env kc.num_threads 0 ts >>= after_start env) ≡ done o =
              ground arith in
            let (st, starts, after) =
              >>=-eq-done (start_threads env kc.num_threads 0 ts) _ granted in
            let (ths, full) = all_started kc.num_threads 0 ts st starts in
            let (ths', stops, last) = >>=-eq-done (stop_threads env ths) _ (rw full at after) in
            ground arith
      ]
