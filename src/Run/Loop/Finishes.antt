-- ===== src/Run/Loop/Finishes.antt =====
-- From every state, a thread that is asked to stop can come to its return.
use kernel_io.Common.{ℕ, zero, suc, ◌+◌, ◌≤◌, ◌≡◌, ◌∙◌, inl, inr, refl, true, arith}
use kernel_io.Config.Types.{KioThreadConfig}
use kernel_io.Io.Device.{KioIo}
use kernel_io.Run.Loop.{finished, LoopState, Step, Reach, next}
use kernel_io.Run.Loop.Safety.{Reach-Inv}
use kernel_io.Run.Loop.Termination.{Works, Work, idle, work, rank, Step-rank, goes_on}

Work-first :
    {io : KioIo} {s u v : LoopState} {n : ℕ}
    → (st : Step io s u) → Works st
    → Work io u n v
    → Work io s (suc n) v
Work-first st w idle = work idle st w
Work-first st w (work ws st' w') = work (Work-first st w ws) st' w'

module _ (io : KioIo) (i : ℕ) (t : KioThreadConfig) (deep : 1 ≤ t.queue_depth)
    (fits : t.queue_depth ≤ 1024) where
  -- A way to the return on which no submission fails.
  abbrev pub CanFinish : LoopState → Type 0
  CanFinish s = (n : ℕ) × (s' : LoopState) × Work io s n s' × (s'.pc ≡ finished) × (s'.refused ≡ 0)

  finishes_within :
      (bound : ℕ) (s : LoopState)
      → Reach io i t s
      → s.should_stop ≡ true
      → s.refused ≡ 0
      → rank s.pc + s.inflight ≤ bound
      → CanFinish s
  finishes_within zero s r stop none_refused le =
      elim (goes_on io t deep s s.pc refl (Reach-Inv deep fits r) none_refused) [
        | inl over ↦ (0, s, idle, over, none_refused)
        | inr (u, st, w, kept) ↦ absurd (omega (arith, (Step-rank st w stop).0))
      ]
  finishes_within (suc bound) s r stop none_refused le =
      elim (goes_on io t deep s s.pc refl (Reach-Inv deep fits r) none_refused) [
        | inl over ↦ (0, s, idle, over, none_refused)
        | inr (u, st, w, kept) ↦
            let (less, stop') = Step-rank st w stop in
            let (n, v, ws, over, fine) =
              finishes_within bound u (next r st) stop' (kept ∙ none_refused) (omega arith) in
            (suc n, v, Work-first st w ws, over, fine)
      ]

  pub stopped-CanFinish :
      (s : LoopState) → Reach io i t s → s.should_stop ≡ true → s.refused ≡ 0 → CanFinish s
  stopped-CanFinish s r stop none_refused =
      finishes_within (rank s.pc + s.inflight) s r stop none_refused (omega arith)
