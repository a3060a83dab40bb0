-- ===== src/Run/System/Closed.antt =====
-- A run whose device is no longer there: the threads go on, and `kio_io` is zero.
use kernel_io.Common.{
  ℕ, ◌+◌, ◌≡◌, inl, inr, refl, some, true, arith, List, All, All-get_elem?, get_elem?,
  get_elem?-in_append, length,
}
use kernel_io.Config.Types.{KioThreadConfig}
use kernel_io.Io.Device.{KioIo}
use kernel_io.Run.Thread.{fresh_thread}
use kernel_io.Run.Loop.{LoopState, start_loop, Step, start}
use kernel_io.Run.Loop.Counts.{submits}
use kernel_io.Run.Loop.Invariant.{Step-Inv}
use kernel_io.Run.Loop.Safety.{Step-refused, Reach-Inv}
use kernel_io.Run.System.{
  System, SystemStep, start_thread, all_started, wait_over, ask, join, finish, thread, SystemSteps,
  none_yet, and_then,
}
use kernel_io.Run.Loop.Closed.{Answered, Doomed, Sane, Step-Small, none_succeeds, Committed-Doomed}
use kernel_io.Run.System.Order.{Order, SystemStep-Order}
use kernel_io.Run.System.Threads.{Deep, EachThread, SystemStep-EachThread, At, set-At}

abbrev pub StepAnswered :
    {io : KioIo} {ts : List KioThreadConfig} {s s' : System} → SystemStep io ts s s' → Type 0
StepAnswered (thread i p at st own) = Answered st
StepAnswered _ = Unit

abbrev pub AllAnswered :
    {io : KioIo} {ts : List KioThreadConfig} {s s' : System} → SystemSteps io ts s s' → Type 0
AllAnswered none_yet = Unit
AllAnswered (and_then ss st) = AllAnswered ss × StepAnswered st

-- The submissions that succeed among some steps.
abbrev pub step_submissions :
    {io : KioIo} {ts : List KioThreadConfig} {s s' : System} → SystemStep io ts s s' → ℕ
step_submissions (thread i p at st own) = submits st
step_submissions _ = 0

unfoldable pub submissions_among :
    {io : KioIo} {ts : List KioThreadConfig} {s s' : System} → SystemSteps io ts s s' → ℕ
submissions_among none_yet = 0
submissions_among (and_then ss st) = submissions_among ss + step_submissions st

-- What holds of a run before the device is closed, and goes on holding.
pub record Carried (ts : List KioThreadConfig) (s : System) : Type 0 where
  pub order : Order (length ts) s
  pub threads : EachThread Sane ts s.loops

module _ (io : KioIo) (ts : List KioThreadConfig) (deep : All Deep ts)
    (no_bytes : io.dev_byte_size ≡ 0) (no_blocks : io.dev_block_size ≡ 0) where
  start-Sane :
      (i : ℕ) (t : KioThreadConfig)
      → get_elem? ts i ≡ some t
      → Sane i t (start_loop (fresh_thread i t))
  start-Sane i t config =
      let (low, high) = All-get_elem? Deep ts i deep config in
      record { inv = Reach-Inv {io = io} {i = i} low high start; small = tt }

  Step-Sane :
      (i : ℕ) (t : KioThreadConfig) (l l' : LoopState)
      → get_elem? ts i ≡ some t
      → Step io l l'
      → Sane i t l
      → Sane i t l'
  Step-Sane i t l l' config st v =
      let (low, high) = All-get_elem? Deep ts i deep config in
      record { inv = Step-Inv io t low high st v.inv; small = Step-Small io no_blocks st v.small }

  SystemStep-Carried : {s s' : System} → SystemStep io ts s s' → Carried ts s → Carried ts s'
  SystemStep-Carried st v = record {
    order = SystemStep-Order io ts st v.order;
    threads = SystemStep-EachThread io ts Sane start-Sane Step-Sane st v.threads;
  }

  pub SystemSteps-Carried : {s s' : System} → SystemSteps io ts s s' → Carried ts s → Carried ts s'
  SystemSteps-Carried none_yet v = v
  SystemSteps-Carried (and_then ss st) v = SystemStep-Carried st (SystemSteps-Carried ss v)

  step_fails :
      {s s' : System} (st : SystemStep io ts s s')
      → StepAnswered st
      → Carried ts s
      → step_submissions st ≡ 0
  step_fails (thread i {l} p at st own) answered v =
      let (t, config, sane) = v.threads i l at in none_succeeds io no_bytes st answered sane.small
  step_fails (start_thread t p config) answered v = refl
  step_fails (all_started p full) answered v = refl
  step_fails (wait_over p) answered v = refl
  step_fails (ask k l p at) answered v = refl
  step_fails (join k l p at over) answered v = refl
  step_fails (finish k p full) answered v = refl

  pub none_among :
      {s s' : System} (ss : SystemSteps io ts s s')
      → AllAnswered ss
      → Carried ts s
      → submissions_among ss ≡ 0
  unfolding submissions_among
  none_among none_yet answered v = refl
  none_among (and_then ss st) (before, last) v =
      omega (arith, none_among ss before v, step_fails st last (SystemSteps-Carried ss v))

  Step-Doomed : {l l' : LoopState} (st : Step io l l') → submits st ≡ 0 → Doomed l → Doomed l'
  Step-Doomed st fails (inl committed) = Committed-Doomed io no_bytes st fails committed
  Step-Doomed st fails (inr lost) = inr (omega (arith, Step-refused st))

  SystemStep-Doomed :
      {s s' : System} (k : ℕ) (st : SystemStep io ts s s')
      → step_submissions st ≡ 0
      → At k Doomed s.loops
      → At k Doomed s'.loops
  SystemStep-Doomed {s} k (start_thread t p config) fails (l, at, v) =
      (l, get_elem?-in_append s.loops _ k at, v)
  SystemStep-Doomed k (all_started p full) fails v = v
  SystemStep-Doomed k (wait_over p) fails v = v
  SystemStep-Doomed {s} k (ask j l p at) fails v =
      set-At k Doomed s.loops j l (record l { should_stop = true }) v at (λ same d. d)
  SystemStep-Doomed k (join j l p at over) fails v = v
  SystemStep-Doomed k (finish j p full) fails v = v
  SystemStep-Doomed {s} k (thread i {l} {l'} p at st own) fails v =
      set-At k Doomed s.loops i l l' v at (λ same d. Step-Doomed st fails d)

  pub SystemSteps-Doomed :
      {s s' : System} (k : ℕ) (ss : SystemSteps io ts s s')
      → AllAnswered ss
      → Carried ts s
      → At k Doomed s.loops
      → At k Doomed s'.loops
  SystemSteps-Doomed k none_yet answered c v = v
  SystemSteps-Doomed k (and_then ss st) (before, last) c v =
      SystemStep-Doomed k st (step_fails st last (SystemSteps-Carried ss c))
        (SystemSteps-Doomed k ss before c v)
