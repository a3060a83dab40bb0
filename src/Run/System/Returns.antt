-- ===== src/Run/System/Returns.antt =====
-- From every state in which no submission has failed, a run can come to its return.
use kernel_io.Common.{
  ℕ, zero, suc, ◌+◌, ◌-◌, ◌≤◌, ◌≡◌, ◌≢◌, ◌∙◌, inl, inr, refl, ap, true, false, some, arith, List,
  [], ◌∷◌, ◌++◌, set, length, length-set, length-snoc, All, All-get_elem?, get_elem?, get_elem?-lt,
  lt-get_elem?, get_elem?-set_self, get_elem?-snoc, get_elem?-set,
}
use kernel_io.Config.Types.{KioThreadConfig}
use kernel_io.Io.Device.{KioIo}
use kernel_io.Run.Thread.{fresh_thread}
use kernel_io.Run.Loop.{LoopState, start_loop}
use kernel_io.Run.Loop.Finishes.{stopped-CanFinish}
use kernel_io.Run.System.{
  RunPc, starting, waiting, stopping, joining, returned, System, start_thread, all_started,
  wait_over, ask, join, finish, SystemReach, SystemSteps, none_yet, and_then,
  SystemSteps-SystemReach,
}
use kernel_io.Run.System.Threads.{Deep, SystemReach-Reach}
use kernel_io.Run.System.Order.{Stopped, SystemReach-Order}
use kernel_io.Run.System.Moves.{NoneRefused, Work-Moved, Moved-NoneRefused, CanReturn, behind}

module _ (io : KioIo) (ts : List KioThreadConfig) (deep : All Deep ts) where
  -- The thread that `kthread_stop` waits for returns.
  joins :
      (s : System) (k : ℕ) (l : LoopState)
      → SystemReach io ts s
      → s.pc ≡ joining k
      → get_elem? s.loops k ≡ some l
      → NoneRefused s.loops
      → (u : System) × SystemSteps io ts s u
        × (u.pc ≡ stopping (k + 1))
        × (length u.loops ≡ length s.loops)
        × NoneRefused u.loops
  joins s k l r p at none_refused =
      let (same, lt, over, asked) : Stopped (joining k) (length ts) s.loops =
        rw p at (SystemReach-Order io ts r).stopped in
      let (t, config, reached) = SystemReach-Reach io ts r k l at in
      let (low, high) = All-get_elem? Deep ts k deep config in
      let (n, l', ws, finished', fine) =
        stopped-CanFinish io k t low high l reached (asked l at) (none_refused k l at) in
      let in_run : s.pc ≢ returned = λ e. cc in
      let (u, ss, m) = Work-Moved io ts s k in_run at ws in
      (
        record u { pc = stopping (k + 1) },
        and_then ss (join k l' (m.same_pc ∙ p) m.there finished'),
        refl,
        m.as_many,
        Moved-NoneRefused io ts k l' s u m fine none_refused,
      )

  asked-NoneRefused :
      (ls : List LoopState) (k : ℕ) (l : LoopState)
      → get_elem? ls k ≡ some l
      → NoneRefused ls
      → NoneRefused (set ls k (record l { should_stop = true }))
  asked-NoneRefused ls k l at before j x e =
      elim (get_elem?-set ls k (record l { should_stop = true }) j e) [
        | inr (apart, old) ↦ before j x old
        | inl (same, new) ↦ ap (λ n. n.refused) new ∙ before k l at
      ]

  -- One thread after another is stopped.
  stops :
      (m k : ℕ) (s : System)
      → SystemReach io ts s
      → s.pc ≡ stopping k
      → k + m ≡ length s.loops
      → NoneRefused s.loops
      → CanReturn io ts s
  stops zero k s r p left none_refused = (_, and_then none_yet (finish k p (omega arith)), refl)
  stops (suc m) k s r p left none_refused =
      let (l, at) = lt-get_elem? s.loops k (omega arith) in
      let l1 = record l { should_stop = true } in
      let s1 = record s { pc = joining k; loops = set s.loops k l1 } in
      let asks : SystemSteps io ts s s1 = and_then none_yet (ask k l p at) in
      let r1 = SystemSteps-SystemReach r asks in
      let (u, ss, q, as_many, fine) =
        joins s1 k l1 r1 refl (get_elem?-set_self s.loops k l1 (get_elem?-lt s.loops k at))
          (asked-NoneRefused s.loops k l at none_refused) in
      behind io ts s s1 asks (
        behind io ts s1 u ss (
          stops m (k + 1) u (SystemSteps-SystemReach r1 ss) q
            (omega (arith, length-set s.loops k l1)) fine))

  waits :
      (s : System) → SystemReach io ts s → s.pc ≡ waiting → NoneRefused s.loops → CanReturn io ts s
  waits s r p none_refused =
      let ends : SystemSteps io ts s _ = and_then none_yet (wait_over p) in
      behind io ts s _ ends (
        stops (length s.loops) 0 _ (SystemSteps-SystemReach r ends) refl (omega arith) none_refused)

  started-NoneRefused :
      (ls : List LoopState) (i : ℕ) (t : KioThreadConfig)
      → NoneRefused ls
      → NoneRefused (ls ++ start_loop (fresh_thread i t) ∷ [])
  started-NoneRefused ls i t before j x e =
      elim (get_elem?-snoc ls (start_loop (fresh_thread i t)) j e) [
        | inr (old_place, old) ↦ before j x old
        | inl (last, new) ↦ ap (λ n. n.refused) new
      ]

  -- The threads that are left are started.
  starts :
      (m : ℕ) (s : System)
      → SystemReach io ts s
      → s.pc ≡ starting
      → length s.loops + m ≡ length ts
      → NoneRefused s.loops
      → CanReturn io ts s
  starts zero s r p left none_refused =
      let full : SystemSteps io ts s (record s { pc = waiting }) =
        and_then none_yet (all_started p (omega arith)) in
      behind io ts s _ full (waits _ (SystemSteps-SystemReach r full) refl none_refused)
  starts (suc m) s r p left none_refused =
      let (t, config) = lt-get_elem? ts (length s.loops) (omega arith) in
      let fresh = start_loop (fresh_thread (length s.loops) t) in
      let one : SystemSteps io ts s (record s { loops = s.loops ++ fresh ∷ [] }) =
        and_then none_yet (start_thread t p config) in
      behind io ts s _ one (
        starts m _ (SystemSteps-SystemReach r one) p (omega (arith, length-snoc s.loops fresh))
          (started-NoneRefused s.loops (length s.loops) t none_refused))

  returns :
      (pc : RunPc) (s : System)
      → s.pc ≡ pc
      → SystemReach io ts s
      → NoneRefused s.loops
      → CanReturn io ts s
  returns starting s p r none_refused =
      let le : length s.loops ≤ length ts = rw p at (SystemReach-Order io ts r).stopped in
      starts (length ts - length s.loops) s r p (omega arith) none_refused
  returns waiting s p r none_refused = waits s r p none_refused
  returns (stopping k) s p r none_refused =
      let (same, le, over) : Stopped (stopping k) (length ts) s.loops =
        rw p at (SystemReach-Order io ts r).stopped in
      stops (length s.loops - k) k s r p (omega arith) none_refused
  returns (joining k) s p r none_refused =
      let (same, lt, over, asked) : Stopped (joining k) (length ts) s.loops =
        rw p at (SystemReach-Order io ts r).stopped in
      let (l, at) = lt-get_elem? s.loops k (omega arith) in
      let (u, ss, q, as_many, fine) = joins s k l r p at none_refused in
      behind io ts s u ss (
        stops (length u.loops - (k + 1)) (k + 1) u (SystemSteps-SystemReach r ss) q (omega arith)
          fine)
  returns returned s p r none_refused = (s, none_yet, p)

  -- For queue depths from 1 to 1024: from every state of a run with its threads all going in
  -- which no submission has failed, some further steps lead to the return of kio_run with
  -- kio_running cleared.
  pub run_can_return :
      (s : System)
      → SystemReach io ts s
      → All (λ l. l.refused ≡ 0) s.loops
      → (s' : System) × SystemSteps io ts s s' × (s'.pc ≡ returned) × (s'.kio_running ≡ false)
  run_can_return s r none_refused =
      let (s', ss, p) =
        returns s.pc s refl r
          (λ i l e. All-get_elem? (λ n. n.refused ≡ 0) s.loops i none_refused e) in
      let (idle, reported) =
        rw p at (SystemReach-Order io ts (SystemSteps-SystemReach r ss)).left in
      (s', ss, p, idle)
