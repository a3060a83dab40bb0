-- ===== src/Run/Loop/Closed.antt =====
-- A thread whose device is no longer there, and whose submissions are answered by `kio_io_submit`.
use kernel_io.Common.{ℕ, ◌^◌, ◌<◌, ◌≡◌, ◌⊎◌, inl, inr, refl, Option, none, some, arith, List, done}
use kernel_io.Config.Types.{KioThreadConfig}
use kernel_io.Io.Device.{KioIo}
use kernel_io.Io.Submit.{BlockLayer, BioEvent, kio_io_submit}
use kernel_io.Io.Submit.Outcomes.{kio_io_submit_refused}
use kernel_io.Run.Thread.{KioThread}
use kernel_io.Run.Offset.{kio_thread_next_offset}
use kernel_io.Run.Requests.{Draw, Request, next_request}
use kernel_io.Run.Loop.{
  Pc, settle, dispatch, submit, LoopState, Step, stop_at_top, enter, too_busy, has_room, wake,
  stop_woken, go_woken, no_page, new_page, chosen, no_wait, burst_over, stop_settling, dispatched,
  submitted, submit_failed, no_signal, interrupted, drained, completion, kthread_stop, signalled,
}
use kernel_io.Run.Loop.Counts.{submits}
use kernel_io.Run.Loop.Invariant.{Inv}

-- `kio_io_submit` returns `result`, in some mode, with some page and some answers of the block layer.
abbrev pub Returns : KioIo → Request → (result : Option ℕ) → Type 0
Returns io q result =
    (mode : ℕ) × (layer : BlockLayer) × (page : ℕ) × (events : List BioEvent) × (kio_io_submit io
        mode layer q.offset (some page) q.dir.is_write
      ≡ done (result, events))

abbrev pub Answered : {io : KioIo} {l l' : LoopState} → Step io l l' → Type 0
Answered {io} (submitted q slat_nsec p) = Returns io q none
Answered {io} (submit_failed q e p) = Returns io q (some e)
Answered _ = Unit

-- The offset that the locals hold, if any, is not negative as a signed number.
abbrev pub Small : Pc → Type 0
Small (settle q) = q.offset < 2 ^ 63
Small (dispatch q) = q.offset < 2 ^ 63
Small (submit q) = q.offset < 2 ^ 63
Small _ = Unit

-- The thread has counted its request, or is about to, and has not come to submit it.
abbrev pub Committed : Pc → Type 0
Committed (dispatch q) = Unit
Committed (submit q) = Unit
Committed _ = ⊥

-- It is about to fail, or has failed.
abbrev pub Doomed : LoopState → Type 0
Doomed l = Committed l.pc ⊎ (0 < l.refused)

pub record Sane (i : ℕ) (t : KioThreadConfig) (l : LoopState) : Type 0 where
  pub inv : Inv t l
  pub small : Small l.pc

next_request_zero :
    (io : KioIo) (d : Draw) (th : KioThread)
    → io.dev_block_size ≡ 0
    → (next_request io d th).0.offset ≡ 0
unfolding next_request kio_thread_next_offset
next_request_zero io d th nothing = ground arith

pub Step-Small :
    (io : KioIo)
    → io.dev_block_size ≡ 0
    → {l l' : LoopState} → Step io l l'
    → Small l.pc
    → Small l'.pc
Step-Small io nothing (stop_at_top p b) v = tt
Step-Small io nothing (enter p b) v = tt
Step-Small io nothing (too_busy p b) v = tt
Step-Small io nothing (has_room p b) v = tt
Step-Small io nothing (wake p b) v = tt
Step-Small io nothing (stop_woken p b) v = tt
Step-Small io nothing (go_woken p b) v = tt
Step-Small io nothing (no_page p) v = tt
Step-Small io nothing (new_page p) v = tt
Step-Small io nothing {l} (chosen d p) v = omega (arith, next_request_zero io d l.th nothing)
Step-Small io nothing (no_wait q p b) v = rw p at v
Step-Small io nothing (burst_over q p b w g) v = rw p at v
Step-Small io nothing (stop_settling q p b w g) v = tt
Step-Small io nothing (dispatched q p) v = rw p at v
Step-Small io nothing (submitted q n p) v = tt
Step-Small io nothing (submit_failed q e p) v = tt
Step-Small io nothing (no_signal p b) v = tt
Step-Small io nothing (interrupted p b) v = tt
Step-Small io nothing (drained r p b) v = tt
Step-Small io nothing (completion n p) v = v
Step-Small io nothing kthread_stop v = v
Step-Small io nothing signalled v = v

module _ (io : KioIo) (no_bytes : io.dev_byte_size ≡ 0) where
  -- Nothing that is submitted succeeds.
  pub none_succeeds :
      {l l' : LoopState} (st : Step io l l') → Answered st → Small l.pc → submits st ≡ 0
  none_succeeds (submitted q n p) (mode, layer, page, events, run) small =
      let refuses =
        kio_io_submit_refused io mode layer q.offset (rw p at small) page q.dir.is_write no_bytes in
      cc
  none_succeeds _ a v = refl

  pub Committed-Doomed :
      {l l' : LoopState} (st : Step io l l') → submits st ≡ 0 → Committed l.pc → Doomed l'
  Committed-Doomed (submitted q n p) fails c = cc
  Committed-Doomed (dispatched q p) fails c = inl tt
  Committed-Doomed (submit_failed q e p) fails c = inr (omega arith)
  Committed-Doomed (completion n p) fails c = inl c
  Committed-Doomed kthread_stop fails c = inl c
  Committed-Doomed signalled fails c = inl c
  Committed-Doomed (stop_at_top p b) fails c = absurd (rw p at c)
  Committed-Doomed (enter p b) fails c = absurd (rw p at c)
  Committed-Doomed (too_busy p b) fails c = absurd (rw p at c)
  Committed-Doomed (has_room p b) fails c = absurd (rw p at c)
  Committed-Doomed (wake p b) fails c = absurd (rw p at c)
  Committed-Doomed (stop_woken p b) fails c = absurd (rw p at c)
  Committed-Doomed (go_woken p b) fails c = absurd (rw p at c)
  Committed-Doomed (no_page p) fails c = absurd (rw p at c)
  Committed-Doomed (new_page p) fails c = absurd (rw p at c)
  Committed-Doomed (chosen d p) fails c = absurd (rw p at c)
  Committed-Doomed (no_wait q p b) fails c = absurd (rw p at c)
  Committed-Doomed (burst_over q p b w g) fails c = absurd (rw p at c)
  Committed-Doomed (stop_settling q p b w g) fails c = absurd (rw p at c)
  Committed-Doomed (no_signal p b) fails c = absurd (rw p at c)
  Committed-Doomed (interrupted p b) fails c = absurd (rw p at c)
  Committed-Doomed (drained r p b) fails c = absurd (rw p at c)
