-- ===== src/Run/Loop/Progress.antt =====
-- A thread that is not asked to stop goes on submitting: neither the limit of its queue nor the
-- wait for the end of a burst blocks it for good.
use kernel_io.Common.{
  ℕ, zero, suc, ◌+◌, ◌≤◌, ◌<◌, ◌≡◌, ◌⊎◌, inl, inr, refl, Bool-cases, false, arith,
}
use native.Mathlib.Decide.{ℕ_discrete}
use kernel_io.Config.Types.{KioThreadConfig}
use kernel_io.Io.Device.{KioIo}
use kernel_io.Run.Completion.{kio_thread_busy, kio_thread_too_busy}
use kernel_io.Run.Requests.{Request}
use kernel_io.Run.Loop.{
  Pc, top, throttle, waiting, woken, alloc, choose, settle, dispatch, submit, signals, drain,
  finished, waits_for_burst, LoopState, Step, enter, too_busy, has_room, wake, go_woken, new_page,
  chosen, no_wait, burst_over, dispatched, submitted, no_signal, completion, Reach, next,
}
use kernel_io.Run.Loop.Counts.{submits}
use kernel_io.Run.Loop.Invariant.{Inv}
use kernel_io.Run.Loop.Safety.{Steps, here, more, Reach-Inv, Reach-Steps}

-- The successful submissions among some steps.
abbrev pub further_submissions : {io : KioIo} {s s' : LoopState} → Steps io s s' → ℕ
further_submissions here = 0
further_submissions (more ss st) = further_submissions ss + submits st

-- The steps of the thread that are left up to its next submission.
abbrev ahead : Pc → ℕ
ahead signals = 9
ahead top = 8
ahead throttle = 7
ahead waiting = 6
ahead woken = 5
ahead alloc = 4
ahead choose = 3
ahead (settle _) = 2
ahead (dispatch _) = 1
ahead _ = 0

abbrev pub InLoop : Pc → Type 0
InLoop drain = ⊥
InLoop finished = ⊥
InLoop _ = Unit

-- In its loop, not asked to stop, with no signal pending.
pub record Active (s : LoopState) : Type 0 where
  pub in_loop : InLoop s.pc
  pub unasked : s.should_stop ≡ false
  pub quiet : s.signal ≡ false

module _ (io : KioIo) (t : KioThreadConfig) (deep : 1 ≤ t.queue_depth) where
  -- A step that brings the next submission nearer.
  abbrev Nearer : LoopState → Type 0
  Nearer s =
      (u : LoopState) × Step io s u × Active u × (ahead u.pc + u.inflight < ahead s.pc + s.inflight)

  completes : (s : LoopState) → Active s → 0 < s.inflight → Nearer s
  completes s v busy = (
    _,
    completion 0 busy,
    record { in_loop = v.in_loop; unasked = v.unasked; quiet = v.quiet },
    omega arith,
  )

  -- A step that only goes to another place in the loop.
  goes_to :
      (s : LoopState) (pc : Pc)
      → Step io s (record s { pc = pc })
      → Active s
      → InLoop pc
      → ahead pc < ahead s.pc
      → Nearer s
  goes_to s pc st v there less =
      (_, st, record { in_loop = there; unasked = v.unasked; quiet = v.quiet }, omega arith)

  throttles : (s : LoopState) → Active s → s.pc ≡ throttle → Nearer s
  throttles s v p = elim (Bool-cases (kio_thread_too_busy s.th)) [
    | inl full ↦ goes_to s waiting (too_busy p full) v tt (rw p (omega arith))
    | inr room ↦ goes_to s alloc (has_room p room) v tt (rw p (omega arith))
  ]

  -- A full queue has bios in flight, whose completions make room.
  waits : (s : LoopState) → Inv t s → Active s → s.pc ≡ waiting → Nearer s
  unfolding kio_thread_too_busy
  waits s i v p = elim (Bool-cases (kio_thread_too_busy s.th)) [
    | inl full ↦ completes s v (ground (arith, i.counted, i.ended, i.same_config))
    | inr room ↦ goes_to s woken (wake p (inl room)) v tt (rw p (omega arith))
  ]

  settles : (s : LoopState) (q : Request) → Inv t s → Active s → s.pc ≡ settle q → Nearer s
  unfolding kio_thread_busy
  settles s q i v p = elim (Bool-cases (waits_for_burst s.th.config q)) [
    | inr go ↦ goes_to s (dispatch q) (no_wait q p go) v tt (rw p (omega arith))
    | inl burst ↦ elim (ℕ_discrete s.th.dispatched 0) [
      | no busy ↦ completes s v (ground (arith, i.counted, i.ended))
      | yes over ↦
          goes_to s (dispatch q) (burst_over q p burst (inl over) v.unasked) v tt
            (rw p (omega arith))
    ]
  ]

  -- Wherever it stands in its loop, it is about to submit or can come nearer to it.
  comes-Nearer :
      (s : LoopState) (pc : Pc)
      → s.pc ≡ pc
      → Inv t s
      → Active s
      → ((q : Request) × (s.pc ≡ submit q)) ⊎ Nearer s
  comes-Nearer s top p i v = inr (goes_to s throttle (enter p v.unasked) v tt (rw p (omega arith)))
  comes-Nearer s throttle p i v = inr (throttles s v p)
  comes-Nearer s waiting p i v = inr (waits s i v p)
  comes-Nearer s woken p i v =
      inr (goes_to s alloc (go_woken p v.unasked) v tt (rw p (omega arith)))
  comes-Nearer s alloc p i v = inr (
    _,
    new_page p,
    record { in_loop = tt; unasked = v.unasked; quiet = v.quiet },
    rw p (omega arith),
  )
  comes-Nearer s choose p i v = inr (
    _,
    chosen (record { dir = 0; lo = 0; hi = 0 }) p,
    record { in_loop = tt; unasked = v.unasked; quiet = v.quiet },
    rw p (omega arith),
  )
  comes-Nearer s (settle q) p i v = inr (settles s q i v p)
  comes-Nearer s (dispatch q) p i v = inr (
    _,
    dispatched q p,
    record { in_loop = tt; unasked = v.unasked; quiet = v.quiet },
    rw p (omega arith),
  )
  comes-Nearer s (submit q) p i v = inl (q, p)
  comes-Nearer s signals p i v = inr (goes_to s top (no_signal p v.quiet) v tt (rw p (omega arith)))
  comes-Nearer s drain p i v = absurd (rw p at v.in_loop)
  comes-Nearer s finished p i v = absurd (rw p at v.in_loop)

-- A way from `s` to a state in the loop, on which at least `n` submissions succeed.
abbrev HasSubmitted : KioIo → ℕ → LoopState → Type 0
HasSubmitted io n s =
    (s' : LoopState) × (ss : Steps io s s') × Active s' × (n ≤ further_submissions ss)

one_more :
    {io : KioIo} (n : ℕ) (s u : LoopState) (q : Request) (ss : Steps io s u)
    → u.pc ≡ submit q
    → Active u
    → n ≤ further_submissions ss
    → HasSubmitted io (suc n) s
one_more n s u q ss p v many = (
  _,
  more ss (submitted q 0 p),
  record { in_loop = tt; unasked = v.unasked; quiet = v.quiet },
  omega arith,
)

module _ {io : KioIo} {i : ℕ} {t : KioThreadConfig} (deep : 1 ≤ t.queue_depth)
    (fits : t.queue_depth ≤ 1024) where
  -- From a place on the way, one more submission.
  submits_once :
      (bound n : ℕ) (s u : LoopState) (ss : Steps io s u)
      → Reach io i t u
      → Active u
      → n ≤ further_submissions ss
      → ahead u.pc + u.inflight ≤ bound
      → HasSubmitted io (suc n) s
  submits_once zero n s u ss r v many le =
      elim (comes-Nearer io t deep u u.pc refl (Reach-Inv deep fits r) v) [
        | inl (q, p) ↦ one_more n s u q ss p v many
        | inr (w, st, active, less) ↦ absurd (omega arith)
      ]
  submits_once (suc bound) n s u ss r v many le =
      elim (comes-Nearer io t deep u u.pc refl (Reach-Inv deep fits r) v) [
        | inl (q, p) ↦ one_more n s u q ss p v many
        | inr (w, st, active, less) ↦
            submits_once bound n s w (more ss st) (next r st) active (omega arith) (omega arith)
      ]

  -- For a queue depth from 1 to 1024: from every state in which a thread is in its loop, has not
  -- been asked to stop and has no signal pending, and for every number n, some further steps of
  -- it and of completions lead to another such state, and at least n submissions succeed on the
  -- way.
  pub keeps_submitting :
      (n : ℕ) (s : LoopState)
      → Reach io i t s
      → Active s
      → (s' : LoopState) × (ss : Steps io s s') × Active s' × (n ≤ further_submissions ss)
  keeps_submitting zero s r v = (s, here, v, omega arith)
  keeps_submitting (suc n) s r v =
      let (u, ss, active, many) = keeps_submitting n s r v in
      submits_once (ahead u.pc + u.inflight) n s u ss (Reach-Steps r ss) active many (omega arith)
