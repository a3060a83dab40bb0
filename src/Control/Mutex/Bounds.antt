-- ===== src/Control/Mutex/Bounds.antt =====
-- How many steps handlers that overlap under the mutex take.
use kernel_io.Common.{
  ℕ, zero, suc, ◌+◌, ◌*◌, ◌≤◌, ◌<◌, ◌≡◌, List, All, All-get_elem?, length, replicate, sum_of,
  sum_of-set, done, arith,
}
use kernel_io.Kernel.{Kio}
use kernel_io.Control.{Outside}
use kernel_io.Control.Mutex.{
  Call, sets_num_threads, sets_runtime_seconds, runs_workload, Body, locked, scans_threads, creates,
  destroys, scans_seconds, validates, runs, Next, go_on, unlock_and_return, body_step, Place,
  calling, holding, returned, Callers, CallersStep, mutex_lock, inside, mutex_unlock, CallersReach,
  at_start, after,
}

-- How many steps a handler has left, at most, on so many processors.
abbrev left_inside : ℕ → Body → ℕ
left_inside cpus (locked call) = cpus + 4
left_inside cpus (scans_threads buf count) = cpus + 3
left_inside cpus (creates count rounds i) = rounds + 2
left_inside cpus (destroys e) = 1
left_inside cpus (scans_seconds buf count) = 1
left_inside cpus (validates count) = 2
left_inside cpus (runs count) = 1

abbrev left_for : ℕ → Next → ℕ
left_for cpus (go_on b) = left_inside cpus b + 1
left_for cpus (unlock_and_return r) = 1

abbrev left_at : ℕ → Place → ℕ
left_at cpus calling = cpus + 6
left_at cpus (holding next) = left_for cpus next
left_at cpus (returned r) = 0

body_step-lt :
    (cpus : ℕ) (o : Outside) (b : Body) (s s' : Kio) (next : Next)
    → o.kernel.num_online_cpus ≤ cpus
    → body_step o b s ≡ done (next, s')
    → left_for cpus next < left_inside cpus b + 1
unfolding body_step
body_step-lt cpus o (locked (sets_num_threads buf count)) s s' next few run = ground arith
body_step-lt cpus o (locked (sets_runtime_seconds buf count)) s s' next few run = ground arith
body_step-lt cpus o (locked (runs_workload count)) s s' next few run = ground arith
body_step-lt cpus o (scans_threads buf count) s s' next few run = ground arith
body_step-lt cpus o (creates count zero i) s s' next few run = ground arith
body_step-lt cpus o (creates count (suc rounds) i) s s' next few run = ground arith
body_step-lt cpus o (destroys e) s s' next few run = ground arith
body_step-lt cpus o (scans_seconds buf count) s s' next few run = ground arith
body_step-lt cpus o (validates count) s s' next few run = ground arith
body_step-lt cpus o (runs count) s s' next few run = ground arith

module _ (calls : List (Outside × Call)) (kio : Kio) where
  -- The steps so far.
  unfoldable pub steps_of : {s : Callers} → CallersReach calls kio s → ℕ
  steps_of at_start = 0
  steps_of (after r st) = suc (steps_of r)

  module _ (cpus : ℕ) (few : All (λ c. c.0.kernel.num_online_cpus ≤ cpus) calls) where
    CallersStep-left :
        {s s' : Callers}
        → CallersStep calls s s'
        → sum_of (left_at cpus) s'.places < sum_of (left_at cpus) s.places
    CallersStep-left {s} (mutex_lock k o call free called at) =
        omega (arith, sum_of-set (left_at cpus) s.places k _ (holding (go_on (locked call))) at)
    CallersStep-left {s} (inside k o call b next kio' owned called at run) =
        let low = All-get_elem? (λ c. c.0.kernel.num_online_cpus ≤ cpus) calls k few called in
        omega (
          arith,
          sum_of-set (left_at cpus) s.places k _ (holding next) at,
          body_step-lt cpus o b s.kio kio' next low run,
        )
    CallersStep-left {s} (mutex_unlock k r owned at) =
        omega (arith, sum_of-set (left_at cpus) s.places k _ (returned r) at)

    start_left : (n : ℕ) → sum_of (left_at cpus) (replicate n calling) ≡ n * (cpus + 6)
    start_left zero = omega arith
    start_left (suc n) = ground (arith, start_left n)

    pub steps_bound :
        {s : Callers} (r : CallersReach calls kio s)
        → steps_of r + sum_of (left_at cpus) s.places ≤ length calls * (cpus + 6)
    unfolding steps_of
    steps_bound at_start = omega (arith, start_left (length calls))
    steps_bound (after r st) = omega (arith, steps_bound r, CallersStep-left st)
