-- ===== src/Run/System/Hangs.antt =====
-- A submission that has failed in one of its threads keeps a run from returning.
use kernel_io.Common.{
  ℕ, ◌≤◌, ◌<◌, ◌≡◌, ◌≢◌, refl, ap, true, false, none, some, arith, List, All, All-get_elem?,
  get_elem?, get_elem?-in_append,
}
use kernel_io.Config.Types.{KioThreadConfig}
use kernel_io.Io.Device.{KioIo}
use kernel_io.Run.Loop.{drain, finished, LoopState}
use kernel_io.Run.Loop.Safety.{Step-refused, here, refused_never_finishes}
use kernel_io.Run.System.{
  RunPc, starting, waiting, stopping, joining, returned, System, SystemStep, start_thread,
  all_started, wait_over, ask, join, finish, thread, SystemReach, SystemSteps, none_yet, and_then,
  SystemSteps-SystemReach,
}
use kernel_io.Run.System.Threads.{Deep, At, set-At, SystemReach-Reach}
use kernel_io.Run.System.Order.{Left, SystemReach-Order, all_over}

-- As many submissions of a thread have failed, or more.
abbrev Refused : ℕ → LoopState → Type 0
Refused n l = n ≤ l.refused

SystemStep-Refused :
    {io : KioIo} {ts : List KioThreadConfig} {s s' : System} (k n : ℕ)
    → SystemStep io ts s s'
    → At k (Refused n) s.loops
    → At k (Refused n) s'.loops
SystemStep-Refused {s = s} k n (start_thread t p config) (m, e, bound) =
    (m, get_elem?-in_append s.loops _ k e, bound)
SystemStep-Refused k n (all_started p full) v = v
SystemStep-Refused k n (wait_over p) v = v
SystemStep-Refused {s = s} k n (ask j l p at) v =
    set-At k (Refused n) s.loops j l (record l { should_stop = true }) v at (λ same bound. bound)
SystemStep-Refused k n (join j l p at over) v = v
SystemStep-Refused k n (finish j p full) v = v
SystemStep-Refused {s = s} k n (thread i {l} {l'} p at st own) v =
    set-At k (Refused n) s.loops i l l' v at (λ same bound. omega (arith, Step-refused st))

SystemSteps-Refused :
    {io : KioIo} {ts : List KioThreadConfig} {s s' : System} (k n : ℕ)
    → SystemSteps io ts s s'
    → At k (Refused n) s.loops
    → At k (Refused n) s'.loops
SystemSteps-Refused k n none_yet v = v
SystemSteps-Refused k n (and_then ss st) v =
    SystemStep-Refused k n st (SystemSteps-Refused k n ss v)

-- Before its return a run has set `kio_running` and reported nothing.
pub Left-before :
    (pc : RunPc) (s : System)
    → pc ≢ returned
    → Left pc s
    → (s.kio_running ≡ true) × (s.report ≡ none)
Left-before starting s p v = v
Left-before waiting s p v = v
Left-before (stopping k) s p v = v
Left-before (joining k) s p v = v
Left-before returned s p v = absurd (p refl)

module _ {io : KioIo} {ts : List KioThreadConfig} (deep : All Deep ts) where
  stuck :
      {s : System}
      → SystemReach io ts s
      → (k : ℕ) (l : LoopState) → get_elem? s.loops k ≡ some l
      → 0 < l.refused
      → l.signal ≡ false
      → (l.pc ≡ drain) × (l.th.dispatched ≢ 0)
  stuck r k l at lost quiet =
      let (t, config, reached) = SystemReach-Reach io ts r k l at in
      let (low, high) = All-get_elem? Deep ts k deep config in
      refused_never_finishes low high reached lost here quiet

  -- For queue depths from 1 to 1024: once a submission of some thread has failed, then after any
  -- further steps of kio_run and its threads, completions included, and as long as no signal is
  -- pending for that thread, kio_run has not returned, kio_running is set, there is no summary,
  -- and the thread stands in its last wait with a count of dispatched requests that is not zero.
  pub refused_run_hangs :
      {s s' : System}
      → SystemReach io ts s
      → (k : ℕ) (l l' : LoopState) → get_elem? s.loops k ≡ some l
      → 0 < l.refused
      → SystemSteps io ts s s'
      → get_elem? s'.loops k ≡ some l'
      → l'.signal ≡ false
      → (s'.pc ≢ returned)
        × (s'.kio_running ≡ true)
        × (s'.report ≡ none)
        × (l'.pc ≡ drain)
        × (l'.th.dispatched ≢ 0)
  refused_run_hangs {s} {s'} r k l l' at lost ss at' quiet =
      let r' = SystemSteps-SystemReach r ss in
      let (m, e, bound) = SystemSteps-Refused k 1 ss (l, at, omega arith) in
      let agree : m ≡ l' = ground arith in
      let (drains, counted) = stuck r' k l' at' (omega (arith, ap (λ x. x.refused) agree)) quiet in
      let open_ended : s'.pc ≢ returned = λ p.
        let over = All-get_elem? (λ n. n.pc ≡ finished) s'.loops k (all_over io ts r' p) at' in
        cc in
      let (busy, silent) = Left-before s'.pc s' open_ended (SystemReach-Order io ts r').left in
      (open_ended, busy, silent, drains, counted)
