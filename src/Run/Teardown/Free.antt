-- ===== src/Run/Teardown/Free.antt =====
-- What completions may still do when the threads are freed.
use kernel_io.Common.{ℕ, zero, suc, ◌+◌, ◌≤◌, ◌≡◌, inl, refl, true, false, arith}
use kernel_io.Config.Types.{KioThreadConfig}
use kernel_io.Io.Device.{KioIo}
use kernel_io.Run.Loop.{
  drain, finished, LoopState, Step, drained, leave, stop_at_top, enter, too_busy, has_room, wake,
  stop_woken, go_woken, no_page, new_page, chosen, no_wait, burst_over, stop_settling, dispatched,
  submitted, submit_failed, no_signal, interrupted, completion, kthread_stop, signalled,
}
use kernel_io.Run.Loop.Safety.{Reach-Inv, finished_quiet}
use kernel_io.Run.Teardown.{
  Fine, begin_completion, FineStep, thread, begin, count, wake_up, kfree, FineReach, start, next,
}
use kernel_io.Run.Teardown.Refines.{fine_refines_coarse}

-- A thread that has returned does nothing more.
Step-finished :
    {io : KioIo} {s s' : LoopState} (st : Step io s s') → s.pc ≡ finished → s'.pc ≡ finished
Step-finished (stop_at_top p b) e = cc
Step-finished (enter p b) e = cc
Step-finished (too_busy p b) e = cc
Step-finished (has_room p b) e = cc
Step-finished (wake p b) e = cc
Step-finished (stop_woken p b) e = cc
Step-finished (go_woken p b) e = cc
Step-finished (no_page p) e = cc
Step-finished (new_page p) e = cc
Step-finished (chosen d p) e = cc
Step-finished (no_wait q p b) e = cc
Step-finished (burst_over q p b w g) e = cc
Step-finished (stop_settling q p b w g) e = cc
Step-finished (dispatched q p) e = cc
Step-finished (submitted q n p) e = cc
Step-finished (submit_failed q n p) e = cc
Step-finished (no_signal p b) e = cc
Step-finished (interrupted p b) e = cc
Step-finished (drained r p b) e = refl
Step-finished (completion n p) e = e
Step-finished kthread_stop e = e
Step-finished signalled e = e

-- The threads are freed only after the thread has returned.
abbrev FreedAfter : Fine → Type 0
FreedAfter f = f.freed ≡ true → f.loop.pc ≡ finished

FineStep-FreedAfter : {io : KioIo} (f f' : Fine) → FineStep io f f' → FreedAfter f → FreedAfter f'
FineStep-FreedAfter f f' (thread st o) h e = Step-finished st (h e)
FineStep-FreedAfter f f' (begin n busy) h e = h e
FineStep-FreedAfter f f' (count late) h e = h e
FineStep-FreedAfter f f' (wake_up waking) h e = h e
FineStep-FreedAfter f f' (kfree over) h e = over

module _ {io : KioIo} {i : ℕ} {t : KioThreadConfig} where
  FineReach-FreedAfter : {f : Fine} → FineReach io i t f → FreedAfter f
  FineReach-FreedAfter start = λ e. cc
  FineReach-FreedAfter (next {f} {f'} r st) = FineStep-FreedAfter f f' st (FineReach-FreedAfter r)

  module _ (deep : 1 ≤ t.queue_depth) (fits : t.queue_depth ≤ 1024) where
    -- For a queue depth from 1 to 1024: when the threads have been freed and no signal is
    -- pending, no bio is in flight whose completion has not begun, no request is counted as
    -- dispatched, and the pages that are left are those of the completions that have begun and
    -- not ended.
    pub freed_quiet :
        {f : Fine}
        → FineReach io i t f
        → f.freed ≡ true
        → f.loop.signal ≡ false
        → (f.loop.inflight ≡ 0) × (f.loop.th.dispatched ≡ 0) × (f.loop.pages ≡ f.late + f.waking)
    freed_quiet {f} r freed quiet =
        let (reached, less) = fine_refines_coarse deep fits r in
        let (inflight, pages, counted, refused) =
          finished_quiet deep fits reached (FineReach-FreedAfter r freed) quiet in
        (inflight, counted, omega arith)

    -- In the last wait every bio in flight may complete up to its `atomic_dec`.
    begin_all :
        (n : ℕ) (f : Fine)
        → FineReach io i t f
        → f.loop.inflight ≡ n
        → f.loop.pc ≡ drain
        → f.loop.refused ≡ 0
        → (f' : Fine) × FineReach io i t f'
          × (f'.loop.inflight ≡ 0)
          × (f'.loop.pc ≡ drain)
          × (f'.loop.refused ≡ 0)
          × (f'.late ≡ f.late + n)
    begin_all zero f r e p none_refused = (f, r, e, p, none_refused, omega arith)
    begin_all (suc n) f r e p none_refused =
        let f1 = record f { loop = begin_completion 0 f.loop; late = f.late + 1 } in
        let (f', r', e', p', none_refused', late) =
          begin_all n f1 (next r (begin 0 (omega arith))) (omega arith) p none_refused in
        (f', r', e', p', none_refused', omega arith)

    -- For a queue depth from 1 to 1024: from every state in which a thread stands in its last
    -- wait and no submission has failed, it reaches a state in which the threads have been freed
    -- and every completion of a bio in flight has decremented the count of dispatched requests
    -- and has still to access the thread.
    pub freed_under_completion :
        (f : Fine)
        → FineReach io i t f
        → f.loop.pc ≡ drain
        → f.loop.refused ≡ 0
        → (f' : Fine) × FineReach io i t f'
          × (f'.freed ≡ true)
          × (f'.late ≡ f.late + f.loop.inflight)
    freed_under_completion f r p none_refused =
        let (f', r', e', p', none_refused', late) =
          begin_all f.loop.inflight f r refl p none_refused in
        let v = Reach-Inv deep fits (fine_refines_coarse deep fits r').0 in
        let f2 = record f' { loop = leave 0 f'.loop } in
        let over = thread (drained 0 p' (inl (ground (arith, v.counted)))) tt in
        (record f2 { freed = true }, next (next r' over) (kfree refl), refl, late)
