-- ===== src/Run/System/Threads.antt =====
-- Each thread of a run does what its loop does alone, and none is left behind when the run returns.
use kernel_io.Common.{
  ℕ, ◌≤◌, ◌≡◌, inl, inr, sym, true, some, arith, List, [], ◌∷◌, ◌++◌, set, length, get_elem?,
  get_elem?-set, get_elem?-snoc, get_elem?-set_ne, get_elem?-set_self, get_elem?-lt, ◌∙◌,
}
use mathlib.Core.Path.{subst}
use native.Mathlib.Decide.{ℕ_discrete}
use kernel_io.Config.Types.{KioThreadConfig}
use kernel_io.Io.Device.{KioIo}
use kernel_io.Run.Thread.{fresh_thread}
use kernel_io.Run.Loop.{
  Pc, finished, LoopState, start_loop, Step, stop_at_top, enter, too_busy, has_room, wake,
  stop_woken, go_woken, no_page, new_page, chosen, no_wait, burst_over, stop_settling, dispatched,
  submitted, submit_failed, no_signal, interrupted, drained, completion, kthread_stop, signalled,
  Reach,
}
use kernel_io.Run.Loop
use kernel_io.Run.System.{
  System, SystemStep, start_thread, all_started, wait_over, ask, join, finish, thread, SystemReach,
  start, next,
}

-- The thread `i` of a run, as far as its loop goes.
abbrev pub ReachedLoop : KioIo → List KioThreadConfig → ℕ → LoopState → Type 0
ReachedLoop io ts i l = (t : KioThreadConfig) × (get_elem? ts i ≡ some t) × Reach io i t l

-- A queue depth that validation accepts.
abbrev pub Deep : KioThreadConfig → Type 0
Deep t = (1 ≤ t.queue_depth) × (t.queue_depth ≤ 1024)

-- A property of the threads that are started, each with its index and its configuration.
abbrev pub EachThread :
    (ℕ → KioThreadConfig → LoopState → Type 0) → List KioThreadConfig → List LoopState → Type 0
EachThread P ts ls =
    (i : ℕ) (l : LoopState)
    → get_elem? ls i ≡ some l
    → (t : KioThreadConfig) × (get_elem? ts i ≡ some t) × P i t l

module _ (io : KioIo) (ts : List KioThreadConfig) (P : ℕ → KioThreadConfig → LoopState → Type 0)
    (starts : (i : ℕ) (t : KioThreadConfig)
      → get_elem? ts i ≡ some t
      → P i t (start_loop (fresh_thread i t)))
    (steps : (i : ℕ) (t : KioThreadConfig) (l l' : LoopState)
      → get_elem? ts i ≡ some t
      → Step io l l'
      → P i t l
      → P i t l') where
  moved-EachThread :
      (ls : List LoopState) (k : ℕ) (l l' : LoopState)
      → EachThread P ts ls
      → get_elem? ls k ≡ some l
      → Step io l l'
      → EachThread P ts (set ls k l')
  moved-EachThread ls k l l' all at st i m e = elim (get_elem?-set ls k l' i e) [
    | inr (apart, old) ↦ all i m old
    | inl (same, new) ↦
        let (t, config, v) = all k l at in
        subst (λ j. (u : KioThreadConfig) × (get_elem? ts j ≡ some u) × P j u m) same
          (subst (λ n. (u : KioThreadConfig) × (get_elem? ts k ≡ some u) × P k u n) (sym new)
            (t, config, steps k t l l' config st v))
  ]

  added-EachThread :
      (ls : List LoopState) (t : KioThreadConfig)
      → EachThread P ts ls
      → get_elem? ts (length ls) ≡ some t
      → EachThread P ts (ls ++ start_loop (fresh_thread (length ls) t) ∷ [])
  added-EachThread ls t all config i m e =
      let fresh = start_loop (fresh_thread (length ls) t) in
      elim (get_elem?-snoc ls fresh i e) [
        | inr (before, old) ↦ all i m old
        | inl (last, new) ↦
            subst (λ j. (u : KioThreadConfig) × (get_elem? ts j ≡ some u) × P j u m) (sym last)
              (subst
                (λ n.
                  (u : KioThreadConfig) × (get_elem? ts (length ls) ≡ some u) × P (length ls) u n)
                (sym new) (t, config, starts (length ls) t config))
      ]

  pub SystemStep-EachThread :
      {s s' : System} → SystemStep io ts s s' → EachThread P ts s.loops → EachThread P ts s'.loops
  SystemStep-EachThread {s} (start_thread t p config) all = added-EachThread s.loops t all config
  SystemStep-EachThread (all_started p full) all = all
  SystemStep-EachThread (wait_over p) all = all
  SystemStep-EachThread {s} (ask k l p at) all =
      moved-EachThread s.loops k l (record l { should_stop = true }) all at kthread_stop
  SystemStep-EachThread (join k l p at over) all = all
  SystemStep-EachThread (finish k p full) all = all
  SystemStep-EachThread {s} (thread i {l} {l'} p at st own) all =
      moved-EachThread s.loops i l l' all at st

module _ (io : KioIo) (ts : List KioThreadConfig) where
  pub SystemReach-Reach :
      {s : System}
      → SystemReach io ts s
      → (i : ℕ) (l : LoopState) → get_elem? s.loops i ≡ some l
      → ReachedLoop io ts i l
  SystemReach-Reach start = λ i l e. cc
  SystemReach-Reach (next r st) =
      SystemStep-EachThread io ts (Reach io) (λ i t config. Loop.start)
        (λ i t l l' config st r. Loop.next r st) st (SystemReach-Reach r)

-- The thread `k` is there and has a property.
abbrev pub At : ℕ → (LoopState → Type 0) → List LoopState → Type 0
At k P ls = (l : LoopState) × (get_elem? ls k ≡ some l) × P l

pub set-At :
    (k : ℕ) (P : LoopState → Type 0) (ls : List LoopState) (i : ℕ) (l l' : LoopState)
    → At k P ls
    → get_elem? ls i ≡ some l
    → (i ≡ k → P l → P l')
    → At k P (set ls i l')
set-At k P ls i l l' (m, e, v) at keeps = elim (ℕ_discrete i k) [
  | no apart ↦ (m, get_elem?-set_ne ls i k l' apart ∙ e, v)
  | yes same ↦
      let agree : m ≡ l = ground arith in
      (
        l',
        rw (← same) (get_elem?-set_self ls i l' (get_elem?-lt ls i at)),
        keeps same (subst P agree v),
      )
]
