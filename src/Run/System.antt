-- ===== src/Run/System.antt =====
-- `kio_run` of driver/kio_run.c with all its threads at once: one thread after another is started,
-- they run while `kio_run` waits, and it stops one after another. Memory and every `kthread_run`
-- are granted; Run/Session has the rest.
pub mod Threads
pub mod Order
pub mod Refines
pub mod Hangs
pub mod Moves
pub mod Returns
pub mod Submissions
pub mod Closed
use kernel_io.Common.{
  ℕ, ◌+◌, ◌≡◌, ◌≢◌, Bool, true, false, ◌||◌, Option, none, some, List, [], ◌∷◌, ◌++◌, length,
  get_elem?, set, if◌then◌else◌, eintr,
}
use mathlib.Core.List.{map}
use kernel_io.Config.Types.{KioThreadConfig}
use kernel_io.Io.Device.{KioIo}
use kernel_io.Run.Thread.{KioThread, task, fresh_thread}
use kernel_io.Run.Stats.{Report}
use kernel_io.Run.Session.{summary}
use kernel_io.Run.Loop.{finished, LoopState, start_loop, Step, kthread_stop}

-- Where `kio_run` stands.
pub data RunPc : Type 0 where
  starting : RunPc  -- the loop of `kthread_run`, at the first thread that is not started
  waiting : RunPc  -- in `wait_event_interruptible_timeout`
  stopping : ℕ → RunPc  -- the loop of `kthread_stop`, at a thread
  joining : ℕ → RunPc  -- in `kthread_stop`, which has asked the thread and waits for its return
  returned : RunPc

-- The threads that are started, and the locals of `kio_run`. `emergency_stop` is the flag that all
-- threads share.
pub record System : Type 0 where
  pub loops : List LoopState
  pub pc : RunPc
  pub emergency_stop : Bool
  pub result : Option ℕ
  pub kio_running : Bool
  pub report : Option Report

abbrev pub start_run : System
start_run = record {
  loops = [];
  pc = starting;
  emergency_stop = false;
  result = none;
  kio_running = true;
  report = none;
}

-- The thread as `kio_run` finds it, its task set.
abbrev pub settled : LoopState → KioThread
settled l = record l.th { thread = task }

-- Every step but the one that is `kio_run`'s.
abbrev pub OwnStep : {io : KioIo} {l l' : LoopState} → Step io l l' → Type 0
OwnStep kthread_stop = ⊥
OwnStep _ = Unit

-- The wait ends by the flag, by a signal or by the timeout, and then the flag is read. A return frees
-- the threads; what may come behind it is in Run/Teardown.
pub data SystemStep (io : KioIo) (ts : List KioThreadConfig) (s : System) : System → Type 0 where
  start_thread :
      (t : KioThreadConfig)
      → s.pc ≡ starting
      → get_elem? ts (length s.loops) ≡ some t
      → SystemStep io ts s
          (record s { loops = s.loops ++ start_loop (fresh_thread (length s.loops) t) ∷ [] })
  all_started :
      s.pc ≡ starting → length s.loops ≡ length ts → SystemStep io ts s (record s { pc = waiting })
  wait_over :
      s.pc ≡ waiting
      → SystemStep io ts s
          (record s { pc = stopping 0; result = if s.emergency_stop then some eintr else none })
  ask :
      (k : ℕ) (l : LoopState)
      → s.pc ≡ stopping k
      → get_elem? s.loops k ≡ some l
      → SystemStep io ts s
          (record s { pc = joining k; loops = set s.loops k (record l { should_stop = true }) })
  join :
      (k : ℕ) (l : LoopState)
      → s.pc ≡ joining k
      → get_elem? s.loops k ≡ some l
      → l.pc ≡ finished
      → SystemStep io ts s (record s { pc = stopping (k + 1) })
  finish :
      (k : ℕ)
      → s.pc ≡ stopping k
      → k ≡ length s.loops
      → SystemStep io ts s (record s {
        pc = returned;
        kio_running = false;
        report = summary s.result (map settled s.loops);
      })
  thread :
      (i : ℕ) {l l' : LoopState}
      → s.pc ≢ returned
      → get_elem? s.loops i ≡ some l
      → (st : Step io l l') → OwnStep st
      → SystemStep io ts s (record s {
        loops = set s.loops i l';
        emergency_stop = s.emergency_stop || l'.emergency_stop;
      })

pub data SystemReach (io : KioIo) (ts : List KioThreadConfig) : System → Type 0 where
  start : SystemReach io ts start_run
  next : {s s' : System} → SystemReach io ts s → SystemStep io ts s s' → SystemReach io ts s'

-- Some steps of a run.
pub data SystemSteps (io : KioIo) (ts : List KioThreadConfig) (s : System) : System → Type 0 where
  none_yet : SystemSteps io ts s s
  and_then :
      {s' s'' : System} → SystemSteps io ts s s' → SystemStep io ts s' s'' → SystemSteps io ts s s''

pub SystemSteps-SystemReach :
    {io : KioIo} {ts : List KioThreadConfig} {s s' : System}
    → SystemReach io ts s
    → SystemSteps io ts s s'
    → SystemReach io ts s'
SystemSteps-SystemReach r none_yet = r
SystemSteps-SystemReach r (and_then ss st) = next (SystemSteps-SystemReach r ss) st
