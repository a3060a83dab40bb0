-- ===== src/Run/System/Refines.antt =====
-- What the threads of a run do together is a run as `kio_run` of Run/Session has it.
use kernel_io.Common.{
  ◌≡◌, inl, inr, refl, ap, true, false, none, some, arith, List, [], ◌∷◌, ◌++◌, All, length,
  get_elem?, get_elem?-append, length-snoc, done,
}
use mathlib.Core.List.{map, append_assoc}
use kernel_io.Config.Types.{KioThreadConfig, KioConfig, IsAllocated}
use kernel_io.Io.Device.{KioIo}
use kernel_io.Run.Thread.{KioThread}
use kernel_io.Run.Session.{Environment, kio_run}
use kernel_io.Run.Session.Outcomes.{OnePage, tasks, kio_run_completes}
use kernel_io.Run.Loop.{finished, LoopState, is_error}
use kernel_io.Run.System.{returned, System, settled, SystemReach}
use kernel_io.Run.System.Order.{SystemReach-Order, all_over}

-- What `kthread_stop` has left of the thread with that index.
abbrev pub stopped_as : List LoopState → KioThread → KioThread
stopped_as ls th = elim (get_elem? ls th.index) [ none ↦ th | some l ↦ settled l ]

-- What happened outside, as the run shows it.
abbrev pub environment_of : System → Environment
environment_of s = record {
  memory = true;
  kthread_run = λ i. none;
  emergency_stop = is_error s.result;
  stopped = stopped_as s.loops;
}

pub stopped_as-tasks :
    (before ls : List LoopState) (ts : List KioThreadConfig)
    → length ls ≡ length ts
    → map (stopped_as (before ++ ls)) (tasks (length before) ts) ≡ map settled ls
unfolding tasks
stopped_as-tasks before [] [] same = refl
stopped_as-tasks before (l ∷ ls) (t ∷ ts) same =
    let ih =
      rw (length-snoc before l, append_assoc before (l ∷ []) ls) at
        (stopped_as-tasks (before ++ l ∷ []) ls ts (omega arith)) in
    rw (get_elem?-append before l ls, stopped_as) (ap (◌∷◌ (settled l)) ih)
stopped_as-tasks before [] (t ∷ ts) same = absurd (omega arith)
stopped_as-tasks before (l ∷ ls) [] same = absurd (omega arith)

-- For an allocated configuration with blocks of one page: whenever a run with its threads all
-- going comes to the return of kio_run, in any order of their steps, every thread has returned,
-- and kio_run by itself, with memory and every kthread_run granted, the same interruption or
-- none, and each kthread_stop leaving what that thread has come to, returns the same result,
-- kio_running and summary.
pub system_refines_kio_run :
    (io : KioIo) (kc : KioConfig) (ts : List KioThreadConfig) (s : System)
    → IsAllocated kc ts
    → All OnePage ts
    → SystemReach io ts s
    → s.pc ≡ returned
    → (kio_run (environment_of s) kc false
        ≡ done (record { result = s.result; kio_running = s.kio_running; report = s.report }))
      × All (λ l. l.pc ≡ finished) s.loops
system_refines_kio_run io kc ts s a pages r p =
    let v = SystemReach-Order io ts r in
    let (same, over) = rw p at v.stopped in
    let (idle, reported) = rw p at v.left in
    let threads = stopped_as-tasks [] s.loops ts same in
    let run = kio_run_completes (environment_of s) kc ts a pages false refl (λ i. refl) in
    (
      elim v.outcome [
        | inl fine ↦ ground (arith, rw threads at run, idle, reported, fine)
        | inr stopped ↦ ground (arith, rw threads at run, idle, reported, stopped)
      ],
      all_over io ts r p,
    )
