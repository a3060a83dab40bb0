-- ===== src/Tests/Mutexes.antt =====
-- A write to `num_threads` and one to `runtime_seconds` that overlap under the mutex.
use kernel_io.Common.{
  ℕ, ◌*◌, ◌+◌, ◌≤◌, ◌≡◌, sum_of, ◌⊎◌, ◌↔◌, refl, none, some, List, [], ◌∷◌, All, arith, get_elem?,
  Result, ok, err, ebusy, ◌≢◌,
}
use kernel_io.Config.Threads.{create_files, kio_config_create_thread}
use kernel_io.Control.{Outside}
use kernel_io.Control.Reached.{Reached-WellFormed}
use kernel_io.Control.Mutex.{
  Call, sets_num_threads, sets_runtime_seconds, scans_threads, go_on, body_step, calling, holding,
  returned, Callers, mutex_lock, inside, mutex_unlock, CallersReach, at_start, after,
}
use kernel_io.Control.Mutex.Serial.{InTurn, Recorded, calls_take_turns}
use kernel_io.Control.Mutex.Bounds.{steps_of}
use kernel_io.Control.Mutex.Returns.{held, Returned, CanStep, calls_return}
use kernel_io.Control.Mutex.Quiet.{Granted, never_busy}
use kernel_io.Tests.Ledgers.{set_up}
use kernel_io.Tests.Writes.{outside, outside-Trusted, fresh, fresh-Reached}

abbrev calls : List (Outside × Call)
calls = (outside, sets_num_threads (1 ∷ []) 2) ∷ (outside, sets_runtime_seconds (5 ∷ []) 2) ∷ []

-- The first holds the mutex and has tested what it reads.
abbrev one_inside : Callers
one_inside = record {
  kio = fresh;
  owner = some 0;
  places = holding (go_on (scans_threads (1 ∷ []) 2)) ∷ calling ∷ [];
}

one_inside-CallersReach : CallersReach calls fresh one_inside
unfolding body_step
one_inside-CallersReach =
    let locks =
      after at_start (mutex_lock 0 outside (sets_num_threads (1 ∷ []) 2) refl refl refl) in
    after locks (inside 0 outside (sets_num_threads (1 ∷ []) 2) _ _ _ refl refl refl refl)

-- The first has returned, and the second still waits.
abbrev one_over : Callers
one_over = record { kio = set_up; owner = none; places = returned (ok 2) ∷ calling ∷ [] }

one_over-CallersReach : CallersReach calls fresh one_over
unfolding body_step kio_config_create_thread create_files
one_over-CallersReach =
    let call = sets_num_threads (1 ∷ []) 2 in
    let begun = after one_inside-CallersReach (inside 0 outside call _ _ _ refl refl refl refl) in
    let made = after begun (inside 0 outside call _ _ _ refl refl refl refl) in
    let full = after made (inside 0 outside call _ _ _ refl refl refl refl) in
    after full (mutex_unlock 0 (ok 2) refl refl)

calls_take_turns_example :
    (turns : List (ℕ × Result ℕ)) × InTurn calls fresh turns set_up
    × ((j : ℕ) (r : Result ℕ)
        → (get_elem? one_over.places j ≡ some (returned r)) ↔ Recorded j r turns)
calls_take_turns_example = calls_take_turns calls fresh one_over-CallersReach refl

calls_return_example :
    (steps_of calls fresh one_inside-CallersReach ≤ 2 * (4 + 6))
    × (All Returned one_inside.places ⊎ CanStep calls one_inside)
    × (sum_of held one_inside.places ≤ 1)
calls_return_example =
    calls_return calls fresh (outside-Trusted, (outside-Trusted, tt))
      (Reached-WellFormed fresh fresh-Reached) 4 one_inside-CallersReach
      (omega arith, (omega arith, tt))

-- Both have returned.
abbrev both_over : Callers
both_over = record {
  kio = record set_up { config = record set_up.config { runtime_seconds = 5 } };
  owner = none;
  places = returned (ok 2) ∷ returned (ok 2) ∷ [];
}

both_over-CallersReach : CallersReach calls fresh both_over
unfolding body_step
both_over-CallersReach =
    let call = sets_runtime_seconds (5 ∷ []) 2 in
    let locks = after one_over-CallersReach (mutex_lock 1 outside call refl refl refl) in
    let tested = after locks (inside 1 outside call _ _ _ refl refl refl refl) in
    let assigned = after tested (inside 1 outside call _ _ _ refl refl refl refl) in
    after assigned (mutex_unlock 1 (ok 2) refl refl)

outside-Granted : Granted outside
outside-Granted = (refl, λ i. refl)

never_busy_example : ◌≢◌ {A = Result ℕ} (ok 2) (err ebusy)
never_busy_example =
    never_busy calls fresh (outside-Granted, (outside-Granted, tt)) refl both_over-CallersReach 1
      outside (sets_runtime_seconds (5 ∷ []) 2) (ok 2) refl tt refl
