-- ===== src/Run/Loop/Termination.antt =====
-- How a thread comes to its end once it is asked to stop.
use kernel_io.Common.{ℕ, suc, ◌+◌, ◌≤◌, ◌<◌, ◌≡◌, ◌≢◌, ◌⊎◌, inl, inr, refl, true, Bool-cases, arith}
use native.Mathlib.Decide.{ℕ_discrete}
use kernel_io.Config.Types.{KioThreadConfig}
use kernel_io.Io.Device.{KioIo}
use kernel_io.Run.Completion.{kio_thread_busy, kio_thread_too_busy}
use kernel_io.Run.Requests.{Request}
use kernel_io.Run.Loop.{
  Pc, top, throttle, waiting, woken, alloc, choose, settle, dispatch, submit, signals, drain,
  finished, LoopState, Step, stop_at_top, enter, too_busy, has_room, wake, stop_woken, go_woken,
  no_page, new_page, chosen, no_wait, burst_over, stop_settling, dispatched, submitted,
  submit_failed, no_signal, interrupted, drained, completion, kthread_stop, signalled, Reach, next,
  waits_for_burst,
}
use kernel_io.Run.Loop.Invariant.{Inv, one_if}
use kernel_io.Run.Loop.Safety.{Reach-Inv, queue_depth_respected}

-- A step of the thread itself, or a completion.
abbrev pub Works : {io : KioIo} {s s' : LoopState} → Step io s s' → Type 0
Works kthread_stop = ⊥
Works signalled = ⊥
Works _ = Unit

-- That many such steps.
pub data Work (io : KioIo) (s : LoopState) : (steps : ℕ) → LoopState → Type 0 where
  idle : Work io s 0 s
  work :
      {n : ℕ} {s' s'' : LoopState}
      → Work io s n s'
      → (st : Step io s' s'') → Works st
      → Work io s (suc n) s''

-- How many steps are left to a thread that is asked to stop, at most.
abbrev pub rank : Pc → ℕ
rank finished = 0
rank drain = 1
rank top = 2
rank signals = 3
rank (submit _) = 5
rank (dispatch _) = 6
rank (settle _) = 7
rank choose = 8
rank alloc = 9
rank woken = 10
rank waiting = 11
rank throttle = 12

pub Step-rank :
    {io : KioIo} {s s' : LoopState} (st : Step io s s')
    → Works st
    → s.should_stop ≡ true
    → (rank s'.pc + s'.inflight < rank s.pc + s.inflight) × (s'.should_stop ≡ true)
Step-rank (stop_at_top p b) w stop = ground arith
Step-rank (enter p b) w stop = ground arith
Step-rank (too_busy p b) w stop = ground arith
Step-rank (has_room p b) w stop = ground arith
Step-rank (wake p b) w stop = ground arith
Step-rank (stop_woken p b) w stop = ground arith
Step-rank (go_woken p b) w stop = ground arith
Step-rank (no_page p) w stop = ground arith
Step-rank (new_page p) w stop = ground arith
Step-rank (chosen d p) w stop = ground arith
Step-rank (no_wait q p b) w stop = ground arith
Step-rank (burst_over q p b c g) w stop = ground arith
Step-rank (stop_settling q p b c g) w stop = ground arith
Step-rank (dispatched q p) w stop = ground arith
Step-rank (submitted q n p) w stop = ground arith
Step-rank (submit_failed q e p) w stop = ground arith
Step-rank (no_signal p b) w stop = ground arith
Step-rank (interrupted p b) w stop = ground arith
Step-rank (drained r p b) w stop = ground arith
Step-rank (completion n p) w stop = ground arith
Step-rank kthread_stop w stop = absurd w
Step-rank signalled w stop = absurd w

Work-rank :
    {io : KioIo} {s s' : LoopState} {n : ℕ}
    → Work io s n s'
    → s.should_stop ≡ true
    → (n + (rank s'.pc + s'.inflight) ≤ rank s.pc + s.inflight) × (s'.should_stop ≡ true)
Work-rank idle stop = (omega arith, stop)
Work-rank (work ws st w) stop =
    let (bound, stop') = Work-rank ws stop in
    let (less, stop'') = Step-rank st w stop' in (omega arith, stop'')

pub rank-le : (pc : Pc) → rank pc ≤ 12
rank-le pc = ground arith

Work-Reach :
    {io : KioIo} {i : ℕ} {t : KioThreadConfig} {s : LoopState} {n : ℕ} {s' : LoopState}
    → Work io s n s'
    → Reach io i t s
    → Reach io i t s'
Work-Reach idle r = r
Work-Reach (work ws st w) r = next (Work-Reach ws r) st

-- A further step of the thread, or a completion, and no submission fails by it.
abbrev pub CanWork : KioIo → LoopState → Type 0
CanWork io s = (s' : LoopState) × (st : Step io s s') × Works st × (s'.refused ≡ s.refused)

completes : (io : KioIo) (s : LoopState) → s.inflight ≢ 0 → CanWork io s
completes io s busy = (_, completion 0 (omega arith), tt, refl)

module _ (io : KioIo) (t : KioThreadConfig) (deep : 1 ≤ t.queue_depth) where
  -- A thread that waits has a bio in flight, or what it waits for has come.
  waits : (s : LoopState) → Inv t s → s.pc ≡ waiting → CanWork io s
  unfolding kio_thread_too_busy
  waits s v p = elim (Bool-cases (kio_thread_too_busy s.th)) [
    | inr room ↦ (_, wake p (inl room), tt, refl)
    | inl full ↦ completes io s (ground (arith, v.counted, v.ended, v.same_config))
  ]

  settles : (s : LoopState) (q : Request) → Inv t s → s.pc ≡ settle q → CanWork io s
  unfolding kio_thread_busy
  settles s q v p = elim (Bool-cases (waits_for_burst s.th.config q)) [
    | inr go ↦ (_, no_wait q p go, tt, refl)
    | inl burst ↦ elim (ℕ_discrete s.th.dispatched 0) [
      | no busy ↦ completes io s (ground (arith, v.counted, v.ended))
      | yes over ↦ elim (Bool-cases s.should_stop) [
        | inl stop ↦ (_, stop_settling q p burst (inl over) stop, tt, refl)
        | inr go ↦ (_, burst_over q p burst (inl over) go, tt, refl)
      ]
    ]
  ]

  drains : (s : LoopState) → Inv t s → s.refused ≡ 0 → s.pc ≡ drain → CanWork io s
  drains s v none_refused p = elim (ℕ_discrete s.th.dispatched 0) [
    | yes over ↦ (_, drained 0 p (inl over), tt, refl)
    | no busy ↦ completes io s (ground (arith, v.counted))
  ]

  asks : (s : LoopState) → s.pc ≡ top → CanWork io s
  asks s p = elim (Bool-cases s.should_stop) [
    | inl stop ↦ (_, stop_at_top p stop, tt, refl)
    | inr go ↦ (_, enter p go, tt, refl)
  ]

  asks_woken : (s : LoopState) → s.pc ≡ woken → CanWork io s
  asks_woken s p = elim (Bool-cases s.should_stop) [
    | inl stop ↦ (_, stop_woken p stop, tt, refl)
    | inr go ↦ (_, go_woken p go, tt, refl)
  ]

  throttles : (s : LoopState) → s.pc ≡ throttle → CanWork io s
  throttles s p = elim (Bool-cases (kio_thread_too_busy s.th)) [
    | inl full ↦ (_, too_busy p full, tt, refl)
    | inr room ↦ (_, has_room p room, tt, refl)
  ]

  looks : (s : LoopState) → s.pc ≡ signals → CanWork io s
  looks s p = elim (Bool-cases s.signal) [
    | inl pending ↦ (_, interrupted p pending, tt, refl)
    | inr quiet ↦ (_, no_signal p quiet, tt, refl)
  ]

  -- Where a thread stands it can go on, unless it has returned or a submission has failed.
  pub goes_on :
      (s : LoopState) (pc : Pc)
      → s.pc ≡ pc
      → Inv t s
      → s.refused ≡ 0
      → (s.pc ≡ finished) ⊎ CanWork io s
  goes_on s finished p v none_refused = inl p
  goes_on s top p v none_refused = inr (asks s p)
  goes_on s throttle p v none_refused = inr (throttles s p)
  goes_on s waiting p v none_refused = inr (waits s v p)
  goes_on s woken p v none_refused = inr (asks_woken s p)
  goes_on s alloc p v none_refused = inr (_, new_page p, tt, refl)
  goes_on s choose p v none_refused =
      inr (_, chosen (record { dir = 0; lo = 0; hi = 0 }) p, tt, refl)
  goes_on s (settle q) p v none_refused = inr (settles s q v p)
  goes_on s (dispatch q) p v none_refused = inr (_, dispatched q p, tt, refl)
  goes_on s (submit q) p v none_refused = inr (_, submitted q 0 p, tt, refl)
  goes_on s signals p v none_refused = inr (looks s p)
  goes_on s drain p v none_refused = inr (drains s v none_refused p)

  -- For a queue depth from 1 to 1024, and once a thread has been asked to stop: it and its
  -- completions take at most 12 steps and the queue depth, and one more if a signal is pending;
  -- and after any number of them the thread has returned, or a step of it or a completion is
  -- possible by which no submission fails, or a submission of it has failed.
  pub stopped_thread_finishes :
      {i : ℕ} {s : LoopState} {n : ℕ} {s' : LoopState}
      → t.queue_depth ≤ 1024
      → Reach io i t s
      → s.should_stop ≡ true
      → Work io s n s'
      → (n ≤ 12 + t.queue_depth + one_if s.signal)
        × ((s'.pc ≡ finished) ⊎ CanWork io s' ⊎ (0 < s'.refused))
  stopped_thread_finishes {s} {n} {s'} fits r stop ws =
      let v = Reach-Inv deep fits r in
      let deepest = queue_depth_respected deep fits r in
      let (bound, stop') = Work-rank ws stop in
      let most : rank s.pc ≤ 12 = rank-le s.pc in
      (
        omega (arith, v.counted),
        elim (ℕ_discrete s'.refused 0) [
          | no some_refused ↦ inr (inr (omega arith))
          | yes none_refused ↦
              elim (goes_on s' s'.pc refl (Reach-Inv deep fits (Work-Reach ws r)) none_refused) [
                | inl over ↦ inl over
                | inr can ↦ inr (inl can)
              ]
        ],
      )
