-- ===== src/Control/Mutex/Returns.antt =====
-- Handlers that overlap under the mutex all return.
use kernel_io.Common.{
  ℕ, zero, suc, Option, replicate, sum_of, sum_of-set, ◌+◌, ◌*◌, ◌≤◌, ◌≡◌, ◌⊎◌, inl, inr, refl, sym,
  ap, ◌∙◌, none, some, Option-cases, List, [], ◌∷◌, All, All-get_elem?, get_elem?, get_elem?-set,
  get_elem?-lt, lt-get_elem?, length, length-set, length-replicate, Exec-cases, done, Result, arith,
}
use mathlib.Core.Path.{subst}
use kernel_io.Kernel.{Kio}
use kernel_io.Control.{Outside, store}
use kernel_io.Control.Safety.{WellFormed, Served, Trusted, store-WellFormed}
use kernel_io.Control.Mutex.{
  Call, sets_num_threads, sets_runtime_seconds, runs_workload, as_write, Next, go_on, locked,
  unlock_and_return, body_step, Place, calling, holding, returned, Callers, CallersStep, mutex_lock,
  inside, mutex_unlock, CallersReach, at_start, after,
}
use kernel_io.Control.Mutex.Serial.{
  InTurn, nobody, then_stores, Serial, Current, replicate-calling, CallersReach-Serial,
}
use kernel_io.Control.Mutex.Rest.{rest_of, rest-fault}
use kernel_io.Control.Mutex.Bounds.{steps_of, steps_bound}

-- How many handlers stand behind `mutex_lock`, and how many own the mutex.
abbrev pub held : Place → ℕ
held calling = 0
held (holding next) = 1
held (returned r) = 0

abbrev owned : Option ℕ → ℕ
owned none = 0
owned (some k) = 1

owned-le : (owner : Option ℕ) → owned owner ≤ 1
owned-le none = omega arith
owned-le (some k) = omega arith

start_held : (n : ℕ) → sum_of held (replicate n calling) ≡ 0
start_held zero = refl
start_held (suc n) = omega (arith, start_held n)

CallersStep-held :
    {calls : List (Outside × Call)} {s s' : Callers}
    → CallersStep calls s s'
    → sum_of held s.places ≡ owned s.owner
    → sum_of held s'.places ≡ owned s'.owner
CallersStep-held {s = s} (mutex_lock k o call free called at) v =
    ground (arith, sum_of-set held s.places k _ (holding (go_on (locked call))) at)
CallersStep-held {s = s} (inside k o call b next kio own called at run) v =
    ground (arith, sum_of-set held s.places k _ (holding next) at)
CallersStep-held {s = s} (mutex_unlock k r own at) v =
    ground (arith, sum_of-set held s.places k _ (returned r) at)

-- Only the owner of the mutex stands behind `mutex_lock`.
abbrev OnlyOwner : Callers → Type 0
OnlyOwner s = (k : ℕ) (next : Next) → get_elem? s.places k ≡ some (holding next) → s.owner ≡ some k

abbrev pub Returned : Place → Type 0
Returned p = (r : Result ℕ) × (p ≡ returned r)

abbrev pub CanStep : List (Outside × Call) → Callers → Type 0
CanStep calls s = (s' : Callers) × CallersStep calls s s'

module _ (calls : List (Outside × Call)) (kio : Kio) where
  CallersStep-OnlyOwner : {s s' : Callers} → CallersStep calls s s' → OnlyOwner s → OnlyOwner s'
  CallersStep-OnlyOwner {s} (mutex_lock k o call free called at) v j next e =
      elim (get_elem?-set s.places k _ j e) [
        | inl (same, fresh) ↦ ap some same
        | inr (apart, before) ↦ let owns = v j next before in cc
      ]
  CallersStep-OnlyOwner {s} (inside k o call b n kio' owned called at run) v j next e =
      elim (get_elem?-set s.places k _ j e) [
        | inl (same, fresh) ↦ cc
        | inr (apart, before) ↦ v j next before
      ]
  CallersStep-OnlyOwner {s} (mutex_unlock k r owned at) v j next e =
      elim (get_elem?-set s.places k _ j e) [
        | inl (same, fresh) ↦ cc
        | inr (apart, before) ↦ let owns = v j next before in absurd (apart (ground arith))
      ]

  CallersReach-OnlyOwner : {s : Callers} → CallersReach calls kio s → OnlyOwner s
  CallersReach-OnlyOwner at_start =
      λ k next e. let idle = replicate-calling (length calls) k e in cc
  CallersReach-OnlyOwner (after r st) = CallersStep-OnlyOwner st (CallersReach-OnlyOwner r)

  CallersReach-held :
      {s : Callers} → CallersReach calls kio s → sum_of held s.places ≡ owned s.owner
  CallersReach-held at_start = start_held (length calls)
  CallersReach-held (after r st) = CallersStep-held st (CallersReach-held r)

  CallersStep-length :
      {s s' : Callers} → CallersStep calls s s' → length s'.places ≡ length s.places
  CallersStep-length {s} (mutex_lock k o call free called at) = length-set s.places k _
  CallersStep-length {s} (inside k o call b next kio' owned called at run) = length-set s.places k _
  CallersStep-length {s} (mutex_unlock k r owned at) = length-set s.places k _

  CallersReach-length : {s : Callers} → CallersReach calls kio s → length s.places ≡ length calls
  CallersReach-length at_start = length-replicate (length calls) calling
  CallersReach-length (after r st) = CallersStep-length st ∙ CallersReach-length r

  module _ (trusted : All (λ c. Trusted c.0) calls) (well_formed : WellFormed kio) where
    as_write-Served : (call : Call) (s : Kio) → Served (as_write call) s
    as_write-Served (sets_num_threads buf count) s = tt
    as_write-Served (sets_runtime_seconds buf count) s = tt
    as_write-Served (runs_workload count) s = tt

    call_returns :
        (k : ℕ) (o : Outside) (call : Call) (s : Kio)
        → get_elem? calls k ≡ some (o, call)
        → WellFormed s
        → (r : Result ℕ) × (s' : Kio) × (store o (as_write call) s ≡ done (r, s')) × WellFormed s'
    call_returns k o call s called wf =
        store-WellFormed o (All-get_elem? (λ c. Trusted c.0) calls k trusted called) (as_write call)
          s wf (as_write-Served call s)

    InTurn-WellFormed :
        {turns : List (ℕ × Result ℕ)} {s : Kio} → InTurn calls kio turns s → WellFormed s
    InTurn-WellFormed nobody = well_formed
    InTurn-WellFormed (then_stores k o call r {s = s} {s' = s'} ts called fresh run) =
        let (r', s'', again, wf) = call_returns k o call s called (InTurn-WellFormed ts) in
        let same : s'' ≡ s' = ground arith in subst WellFormed same wf

    -- Whoever holds the mutex can go on.
    owner_steps : {s : Callers} (k : ℕ) → s.owner ≡ some k → Serial calls kio s → CanStep calls s
    owner_steps {s} k owned v =
        let (o, call, next, called, at, owes) =
          subst (Current calls v.before s.kio s.places) owned v.current in
        let (r, s', run, wf) =
          call_returns k o call v.before called (InTurn-WellFormed v.in_turn) in
        goes_on o call next called at (sym owes ∙ run)
      where
        goes_on :
            (o : Outside) (call : Call) (next : Next) {q : Result ℕ × Kio}
            → get_elem? calls k ≡ some (o, call)
            → get_elem? s.places k ≡ some (holding next)
            → rest_of o next s.kio ≡ done q
            → CanStep calls s
        goes_on o call (unlock_and_return r) called at run = (_, mutex_unlock k r owned at)
        goes_on o call (go_on b) called at run = elim (Exec-cases (body_step o b s.kio)) [
          | inl faults ↦ let bad = rest-fault o b s.kio faults in absurd (cc)
          | inr ((next, kio'), goes) ↦ (_, inside k o call b next kio' owned called at goes)
        ]

    -- A handler that has not returned, if there is one.
    unreturned :
        (places : List Place)
        → All Returned places
          ⊎ ((k : ℕ) × (p : Place) × (get_elem? places k ≡ some p) × ¬ Returned p)
    unreturned [] = inl tt
    unreturned (calling ∷ ps) = inr (0, calling, refl, λ h. let e = h.1 in cc)
    unreturned (holding next ∷ ps) = inr (0, holding next, refl, λ h. let e = h.1 in cc)
    unreturned (returned r ∷ ps) = elim (unreturned ps) [
      | inl all ↦ inl ((r, refl), all)
      | inr (k, p, e, n) ↦ inr (suc k, p, e, n)
    ]

    some_step :
        {s : Callers}
        → CallersReach calls kio s
        → s.owner ≡ none
        → (k : ℕ) (p : Place) → get_elem? s.places k ≡ some p
        → ¬ Returned p
        → CanStep calls s
    some_step {s} reach free k (returned r) at n = absurd (n (r, refl))
    some_step {s} reach free k (holding next) at n =
        let owns = CallersReach-OnlyOwner reach k next at in cc
    some_step {s} reach free k calling at n =
        let within = get_elem?-lt s.places k at in
        let ((o, call), called) = lt-get_elem? calls k (omega (arith, CallersReach-length reach)) in
        (_, mutex_lock k o call free called at)

    no_deadlock : {s : Callers} → CallersReach calls kio s → All Returned s.places ⊎ CanStep calls s
    no_deadlock {s} reach = elim (Option-cases s.owner) [
      | inr (k, owned) ↦ inr (owner_steps k owned (CallersReach-Serial calls kio reach))
      | inl free ↦ elim (unreturned s.places) [
        | inl all ↦ inl all
        | inr (k, p, at, n) ↦ inr (some_step reach free k p at n)
      ]
    ]

    -- For any writes to num_threads, runtime_seconds and run_workload that are under way at the
    -- same time under the mutex, from a state with no threads allocated or as many as num_threads
    -- says: their handlers take at most 6 steps each and as many more as there are processors;
    -- after any number of steps each has returned, or a step is possible; and no two of them
    -- stand between mutex_lock and mutex_unlock at once. Conditions: sscanf returns 32-bit
    -- numbers and kstrtol 64-bit ones, the size of the device is a 64-bit number, every
    -- kthread_run succeeds and every kthread_stop returns.
    pub calls_return :
        (cpus : ℕ) {s : Callers} (r : CallersReach calls kio s)
        → All (λ c. c.0.kernel.num_online_cpus ≤ cpus) calls
        → (steps_of calls kio r ≤ length calls * (cpus + 6))
          × (All Returned s.places ⊎ CanStep calls s)
          × (sum_of held s.places ≤ 1)
    calls_return cpus {s} r few =
        let bound = steps_bound calls kio cpus few r in
        (omega arith, no_deadlock r, omega (arith, CallersReach-held r, owned-le s.owner))
