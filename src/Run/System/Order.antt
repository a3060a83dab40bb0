-- ===== src/Run/System/Order.antt =====
-- What `kio_run` has done, by where it stands.
use kernel_io.Common.{
  ℕ, ◌+◌, ◌<◌, ◌≤◌, ◌≡◌, ◌≢◌, ◌⊎◌, inl, inr, refl, sym, ap, Bool, true, false, none, some, arith,
  List, All, All-of_get, set, ◌||◌, ◌∙◌, length, get_elem?, get_elem?-lt, get_elem?-set, length-set,
  length-snoc, eintr,
}
use mathlib.Core.List.{map}
use mathlib.Core.Path.{subst}
use native.Mathlib.Decide.{ℕ_discrete}
use kernel_io.Run.Thread.{fresh_thread}
use kernel_io.Config.Types.{KioThreadConfig}
use kernel_io.Io.Device.{KioIo}
use kernel_io.Run.Session.{summary}
use kernel_io.Run.Loop.{finished, LoopState, start_loop, Step, kthread_stop}
use kernel_io.Run.Loop.Stays.{Step-finished, Step-should_stop}
use kernel_io.Run.System.{
  RunPc, starting, waiting, stopping, joining, returned, System, settled, SystemStep, start_thread,
  all_started, wait_over, ask, join, finish, thread, SystemReach, start, next,
}

-- The threads before `k` have returned.
abbrev pub OverBefore : ℕ → List LoopState → Type 0
OverBefore k ls = (i : ℕ) (l : LoopState) → i < k → get_elem? ls i ≡ some l → l.pc ≡ finished

moved-OverBefore :
    {io : KioIo} (k : ℕ) (ls : List LoopState) (i : ℕ) (l l' : LoopState)
    → OverBefore k ls
    → get_elem? ls i ≡ some l
    → Step io l l'
    → OverBefore k (set ls i l')
moved-OverBefore k ls i l l' over at st j m lt e = elim (get_elem?-set ls i l' j e) [
  | inr (apart, old) ↦ over j m lt old
  | inl (same, new) ↦
      subst (λ n. n.pc ≡ finished) (sym new)
        (Step-finished st (over i l (subst (λ x. x < k) (sym same) lt) at))
]

-- The thread `k` has been asked to stop.
abbrev pub Asked : ℕ → List LoopState → Type 0
Asked k ls = (l : LoopState) → get_elem? ls k ≡ some l → l.should_stop ≡ true

moved-Asked :
    {io : KioIo} (k : ℕ) (ls : List LoopState) (i : ℕ) (l l' : LoopState)
    → Asked k ls
    → get_elem? ls i ≡ some l
    → Step io l l'
    → Asked k (set ls i l')
moved-Asked k ls i l l' asked at st m e = elim (get_elem?-set ls i l' k e) [
  | inr (apart, old) ↦ asked m old
  | inl (same, new) ↦
      subst (λ n. n.should_stop ≡ true) (sym new)
        (Step-should_stop st (asked l (subst (λ j. get_elem? ls j ≡ some l) same at)))
]

now-Asked :
    (k : ℕ) (ls : List LoopState) (l : LoopState)
    → Asked k (set ls k (record l { should_stop = true }))
now-Asked k ls l m e = elim (get_elem?-set ls k (record l { should_stop = true }) k e) [
  | inl (same, new) ↦ ap (λ n. n.should_stop) new
  | inr (apart, old) ↦ absurd (apart refl)
]

-- Every thread is started once `kio_run` waits, and those that it has stopped have returned.
abbrev pub Stopped : RunPc → (threads : ℕ) → List LoopState → Type 0
Stopped starting n ls = length ls ≤ n
Stopped waiting n ls = length ls ≡ n
Stopped (stopping k) n ls = (length ls ≡ n) × (k ≤ n) × OverBefore k ls
Stopped (joining k) n ls = (length ls ≡ n) × (k < n) × OverBefore k ls × Asked k ls
Stopped returned n ls = (length ls ≡ n) × OverBefore n ls

-- What `kio_run` leaves behind, by where it stands.
abbrev pub Left : RunPc → System → Type 0
Left returned s = (s.kio_running ≡ false) × (s.report ≡ summary s.result (map settled s.loops))
Left _ s = (s.kio_running ≡ true) × (s.report ≡ none)

pub record Order (n : ℕ) (s : System) : Type 0 where
  pub stopped : Stopped s.pc n s.loops
  pub left : Left s.pc s
  pub outcome : (s.result ≡ none) ⊎ (s.result ≡ some eintr)

moved-Stopped :
    {io : KioIo} (pc : RunPc) (n : ℕ) (ls : List LoopState) (i : ℕ) (l l' : LoopState)
    → get_elem? ls i ≡ some l
    → Step io l l'
    → Stopped pc n ls
    → Stopped pc n (set ls i l')
moved-Stopped starting n ls i l l' at st v = omega (arith, length-set ls i l')
moved-Stopped waiting n ls i l l' at st v = omega (arith, length-set ls i l')
moved-Stopped (stopping k) n ls i l l' at st v =
    (omega (arith, length-set ls i l'), v.1, moved-OverBefore k ls i l l' v.2 at st)
moved-Stopped (joining k) n ls i l l' at st v = (
  omega (arith, length-set ls i l'),
  v.1,
  moved-OverBefore k ls i l l' v.2 at st,
  moved-Asked k ls i l l' v.3 at st,
)
moved-Stopped returned n ls i l l' at st v =
    (omega (arith, length-set ls i l'), moved-OverBefore n ls i l l' v.1 at st)

-- One more thread has returned.
over_next :
    (k : ℕ) (ls : List LoopState) (l : LoopState)
    → OverBefore k ls
    → get_elem? ls k ≡ some l
    → l.pc ≡ finished
    → OverBefore (k + 1) ls
over_next k ls l over at f i m lt e = elim (ℕ_discrete i k) [
  | yes same ↦ let agree : m ≡ l = ground arith in subst (λ n. n.pc ≡ finished) (sym agree) f
  | no apart ↦ over i m (omega arith) e
]

kept-Left :
    (pc : RunPc) (s : System) (ls : List LoopState) (flag : Bool)
    → pc ≢ returned
    → Left pc s
    → Left pc (record s { loops = ls; emergency_stop = flag })
kept-Left starting s ls flag p v = v
kept-Left waiting s ls flag p v = v
kept-Left (stopping k) s ls flag p v = v
kept-Left (joining k) s ls flag p v = v
kept-Left returned s ls flag p v = absurd (p refl)

pub Order-over :
    (n : ℕ) (s : System) → Order n s → s.pc ≡ returned → All (λ l. l.pc ≡ finished) s.loops
Order-over n s v p =
    let (same, over) : (length s.loops ≡ n) × OverBefore n s.loops = rw p at v.stopped in
    All-of_get (λ l. l.pc ≡ finished) s.loops
      (λ i l e. over i l (omega (arith, get_elem?-lt s.loops i e)) e)

module _ (io : KioIo) (ts : List KioThreadConfig) where
  pub SystemStep-Order :
      {s s' : System} → SystemStep io ts s s' → Order (length ts) s → Order (length ts) s'
  SystemStep-Order {s} (start_thread t p config) v = record {
    stopped = rw p (
        omega (
          arith,
          length-snoc s.loops (start_loop (fresh_thread (length s.loops) t)),
          get_elem?-lt ts (length s.loops) config,
        ));
    left = rw p (rw p at v.left);
    outcome = v.outcome;
  }
  SystemStep-Order {s} (all_started p full) v = record {
    stopped = full;
    left = rw p at v.left;
    outcome = v.outcome;
  }
  SystemStep-Order {s} (wait_over p) v = record {
    stopped = (rw p at v.stopped, omega arith, λ i l lt e. absurd (omega arith));
    left = rw p at v.left;
    outcome = ground arith;
  }
  SystemStep-Order {s} (ask k l p at) v =
      let (same, le, over) : Stopped (stopping k) (length ts) s.loops = rw p at v.stopped in
      let asked = record l { should_stop = true } in
      record {
        stopped = (
          omega (arith, length-set s.loops k asked),
          omega (arith, get_elem?-lt s.loops k at),
          moved-OverBefore {io = io} k s.loops k l asked over at kthread_stop,
          now-Asked k s.loops l,
        );
        left = rw p at v.left;
        outcome = v.outcome;
      }
  SystemStep-Order {s} (join k l p at f) v =
      let (same, lt, over, asked) : Stopped (joining k) (length ts) s.loops = rw p at v.stopped in
      record {
        stopped = (same, omega arith, over_next k s.loops l over at f);
        left = rw p at v.left;
        outcome = v.outcome;
      }
  SystemStep-Order {s} (finish k p full) v =
      let (same, le, over) : Stopped (stopping k) (length ts) s.loops = rw p at v.stopped in
      record {
        stopped = (same, subst (λ j. OverBefore j s.loops) (full ∙ same) over);
        left = (refl, refl);
        outcome = v.outcome;
      }
  SystemStep-Order {s} (thread i {l} {l'} p at st own) v = record {
    stopped = moved-Stopped s.pc (length ts) s.loops i l l' at st v.stopped;
    left = kept-Left s.pc s (set s.loops i l') (s.emergency_stop || l'.emergency_stop) p v.left;
    outcome = v.outcome;
  }

  pub SystemReach-Order : {s : System} → SystemReach io ts s → Order (length ts) s
  SystemReach-Order start = record {
    stopped = omega arith;
    left = (refl, refl);
    outcome = inl refl;
  }
  SystemReach-Order (next r st) = SystemStep-Order st (SystemReach-Order r)

  -- When the run returns, every thread has returned.
  pub all_over :
      {s : System} → SystemReach io ts s → s.pc ≡ returned → All (λ l. l.pc ≡ finished) s.loops
  all_over {s} r p = Order-over (length ts) s (SystemReach-Order r) p
