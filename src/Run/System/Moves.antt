-- ===== src/Run/System/Moves.antt =====
-- What a thread does alone it can do in a run.
use kernel_io.Common.{
  ℕ, ◌≡◌, ◌≢◌, ◌∙◌, refl, sym, ap, some, arith, List, length, length-set, get_elem?, get_elem?-lt,
  get_elem?-set_self, get_elem?-set_ne,
}
use native.Mathlib.Decide.{ℕ_discrete}
use kernel_io.Config.Types.{KioThreadConfig}
use kernel_io.Io.Device.{KioIo}
use kernel_io.Run.Loop.{
  LoopState, Step, stop_at_top, enter, too_busy, has_room, wake, stop_woken, go_woken, no_page,
  new_page, chosen, no_wait, burst_over, stop_settling, dispatched, submitted, submit_failed,
  no_signal, interrupted, drained, completion, kthread_stop, signalled,
}
use kernel_io.Run.Loop.Termination.{Works, Work, idle, work}
use kernel_io.Run.System.{returned, System, OwnStep, thread, SystemSteps, none_yet, and_then}

Works-OwnStep : {io : KioIo} {l l' : LoopState} (st : Step io l l') → Works st → OwnStep st
Works-OwnStep kthread_stop w = w
Works-OwnStep signalled w = absurd w
Works-OwnStep (stop_at_top p b) w = tt
Works-OwnStep (enter p b) w = tt
Works-OwnStep (too_busy p b) w = tt
Works-OwnStep (has_room p b) w = tt
Works-OwnStep (wake p b) w = tt
Works-OwnStep (stop_woken p b) w = tt
Works-OwnStep (go_woken p b) w = tt
Works-OwnStep (no_page p) w = tt
Works-OwnStep (new_page p) w = tt
Works-OwnStep (chosen d p) w = tt
Works-OwnStep (no_wait q p b) w = tt
Works-OwnStep (burst_over q p b c g) w = tt
Works-OwnStep (stop_settling q p b c g) w = tt
Works-OwnStep (dispatched q p) w = tt
Works-OwnStep (submitted q n p) w = tt
Works-OwnStep (submit_failed q e p) w = tt
Works-OwnStep (no_signal p b) w = tt
Works-OwnStep (interrupted p b) w = tt
Works-OwnStep (drained r p b) w = tt
Works-OwnStep (completion n p) w = tt

-- No submission of any thread has failed.
abbrev pub NoneRefused : List LoopState → Type 0
NoneRefused ls = (i : ℕ) (l : LoopState) → get_elem? ls i ≡ some l → l.refused ≡ 0

-- Only the thread `k` has moved.
pub record Moved (k : ℕ) (l' : LoopState) (s s' : System) : Type 0 where
  pub same_pc : s'.pc ≡ s.pc
  pub there : get_elem? s'.loops k ≡ some l'
  pub as_many : length s'.loops ≡ length s.loops
  pub others : (j : ℕ) → j ≢ k → get_elem? s'.loops j ≡ get_elem? s.loops j

pub trans-SystemSteps :
    {io : KioIo} {ts : List KioThreadConfig} {s u v : System}
    → SystemSteps io ts s u
    → SystemSteps io ts u v
    → SystemSteps io ts s v
trans-SystemSteps ss none_yet = ss
trans-SystemSteps ss (and_then us st) = and_then (trans-SystemSteps ss us) st

module _ (io : KioIo) (ts : List KioThreadConfig) where
  -- What a thread does alone it can do in a run.
  pub Work-Moved :
      (s : System) (k : ℕ) {l : LoopState} {n : ℕ} {l' : LoopState}
      → s.pc ≢ returned
      → get_elem? s.loops k ≡ some l
      → Work io l n l'
      → (s' : System) × SystemSteps io ts s s' × Moved k l' s s'
  Work-Moved s k p at idle =
      (s, none_yet, record { same_pc = refl; there = at; as_many = refl; others = λ j apart. refl })
  Work-Moved s k {l' = l'} p at (work ws st w) =
      let (u, ss, m) = Work-Moved s k p at ws in
      let in_run : u.pc ≢ returned = rw m.same_pc p in
      (
        _,
        and_then ss (thread k in_run m.there st (Works-OwnStep st w)),
        record {
          same_pc = m.same_pc;
          there = get_elem?-set_self u.loops k l' (get_elem?-lt u.loops k m.there);
          as_many = length-set u.loops k l' ∙ m.as_many;
          others =
              λ j apart. get_elem?-set_ne u.loops k j l' (λ e. apart (sym e)) ∙ m.others j apart;
        },
      )

  pub Moved-NoneRefused :
      (k : ℕ) (l' : LoopState) (s s' : System)
      → Moved k l' s s'
      → l'.refused ≡ 0
      → NoneRefused s.loops
      → NoneRefused s'.loops
  Moved-NoneRefused k l' s s' m fine before j x e = elim (ℕ_discrete j k) [
    | no apart ↦ before j x (sym (m.others j apart) ∙ e)
    | yes same ↦ let agree : x ≡ l' = ground (arith, m.there) in ap (λ n. n.refused) agree ∙ fine
  ]

  -- A way to the return.
  abbrev pub CanReturn : System → Type 0
  CanReturn s = (s' : System) × SystemSteps io ts s s' × (s'.pc ≡ returned)

  pub behind : (s u : System) → SystemSteps io ts s u → CanReturn u → CanReturn s
  behind s u ss (v, us, p) = (v, trans-SystemSteps ss us, p)
