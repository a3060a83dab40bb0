-- ===== src/Run/Teardown/Refines.antt =====
-- The completion in steps refines the completion in one step.
use kernel_io.Common.{ℕ, ◌+◌, ◌-◌, ◌≤◌, ◌<◌, ◌≡◌, ◌∙◌, refl, sym, ap, arith, u32}
use mathlib.Core.Path.{subst}
use kernel_io.Config.Types.{KioThreadConfig}
use kernel_io.Io.Device.{KioIo}
use kernel_io.Run.Thread.{KioThread}
use kernel_io.Run.Completion.{kio_bio_completion, kio_thread_busy, kio_thread_too_busy}
use kernel_io.Run.Requests.{Draw, next_request}
use kernel_io.Run.Loop.{
  Pc, settle, LoopState, Step, stop_at_top, enter, too_busy, has_room, wake, stop_woken, go_woken,
  no_page, new_page, chosen, no_wait, burst_over, stop_settling, dispatched, submitted,
  submit_failed, no_signal, interrupted, drained, completion, kthread_stop, signalled, Reach,
}
use kernel_io.Run.Loop.Invariant.{holding}
use kernel_io.Run.Loop.Safety.{Reach-Inv}
use kernel_io.Run.Teardown.{
  Fine, OfThread, begin_completion, count_completion, FineStep, thread, begin, count, wake_up,
  kfree, FineReach,
}
use kernel_io.Run.Requests.Frames.{with_completed, next_request_completed}

-- The state with `k` completions counted that are not yet, and `m` pages freed that are not yet.
abbrev pub shift : (k m : ℕ) → LoopState → LoopState
shift k m s = record s { th = with_completed (u32 (s.th.completed + k)) s.th; pages = s.pages - m }

-- Every completion that has begun is over.
abbrev pub coarse : Fine → LoopState
coarse f = shift f.late (f.late + f.waking) f.loop

next_request-completed :
    (io : KioIo) (d : Draw) (th : KioThread) → (next_request io d th).1.completed ≡ th.completed
next_request-completed io d th =
    ap (λ q. q.1.completed) (next_request_completed io d th.completed th)

shift_chosen :
    (io : KioIo) (k m : ℕ) (s : LoopState) (d : Draw) (c : ℕ)
    → c ≡ u32 ((next_request io d s.th).1.completed + k)
    → ◌≡◌ {A = LoopState}
        (record s {
          th = (next_request io d (with_completed c s.th)).1;
          pc = settle (next_request io d (with_completed c s.th)).0;
          pages = s.pages - m;
        })
        (shift k m
          (record s { th = (next_request io d s.th).1; pc = settle (next_request io d s.th).0 }))
shift_chosen io k m s d c e = rw (next_request_completed io d c s.th, e) refl

module _ {io : KioIo} (k m : ℕ) where
  Step-shift :
      {s s' : LoopState} (st : Step io s s')
      → OfThread st
      → m ≤ s.pages
      → Step io (shift k m s) (shift k m s')
  unfolding kio_thread_busy kio_thread_too_busy
  Step-shift (stop_at_top p b) o h = stop_at_top p b
  Step-shift (enter p b) o h = enter p b
  Step-shift (too_busy p b) o h = too_busy p b
  Step-shift (has_room p b) o h = has_room p b
  Step-shift (wake p b) o h = wake p b
  Step-shift (stop_woken p b) o h = stop_woken p b
  Step-shift (go_woken p b) o h = go_woken p b
  Step-shift (no_page p) o h = no_page p
  Step-shift {s} (new_page p) o h =
      subst (λ n. Step io (shift k m s) (record (shift k m s) { pages = n; pc = Pc.choose }))
        (omega arith) (new_page p)
  Step-shift {s} (chosen d p) o h =
      subst (Step io (shift k m s))
        (shift_chosen io k m s d (u32 (s.th.completed + k))
          (ap (λ n. u32 (n + k)) (sym (next_request-completed io d s.th))))
        (chosen d p)
  Step-shift (no_wait q p b) o h = no_wait q p b
  Step-shift (burst_over q p b w g) o h = burst_over q p b w g
  Step-shift {s} (stop_settling q p b w g) o h =
      subst (λ n. Step io (shift k m s) (record (shift k m s) { pages = n; pc = Pc.drain }))
        (omega arith) (stop_settling q p b w g)
  Step-shift (dispatched q p) o h = dispatched q p
  Step-shift (submitted q n p) o h = submitted q n p
  Step-shift (submit_failed q e p) o h = submit_failed q e p
  Step-shift (no_signal p b) o h = no_signal p b
  Step-shift (interrupted p b) o h = interrupted p b
  Step-shift (drained r p b) o h = drained r p b
  Step-shift (completion n p) o h = absurd o
  Step-shift kthread_stop o h = kthread_stop
  Step-shift signalled o h = signalled

-- A step of the thread frees a page only if it holds one.
Step-pages :
    (m : ℕ) {io : KioIo} {s s' : LoopState} (st : Step io s s')
    → OfThread st
    → m + holding s.pc ≤ s.pages
    → m ≤ s'.pages
Step-pages m (stop_at_top p b) o h = omega arith
Step-pages m (enter p b) o h = omega arith
Step-pages m (too_busy p b) o h = omega arith
Step-pages m (has_room p b) o h = omega arith
Step-pages m (wake p b) o h = omega arith
Step-pages m (stop_woken p b) o h = omega arith
Step-pages m (go_woken p b) o h = omega arith
Step-pages m (no_page p) o h = omega arith
Step-pages m (new_page p) o h = omega arith
Step-pages m (chosen d p) o h = omega arith
Step-pages m (no_wait q p b) o h = omega arith
Step-pages m (burst_over q p b w g) o h = omega arith
Step-pages m (stop_settling q p b w g) o h = ground arith
Step-pages m (dispatched q p) o h = omega arith
Step-pages m (submitted q n p) o h = omega arith
Step-pages m (submit_failed q e p) o h = omega arith
Step-pages m (no_signal p b) o h = omega arith
Step-pages m (interrupted p b) o h = omega arith
Step-pages m (drained r p b) o h = omega arith
Step-pages m (completion n p) o h = absurd o
Step-pages m kthread_stop o h = omega arith
Step-pages m signalled o h = omega arith

begin_shift :
    (k m n : ℕ) (s : LoopState)
    → ◌≡◌ {A = LoopState}
        (record (shift k m s) {
          th = kio_bio_completion n (shift k m s).th;
          inflight = s.inflight - 1;
          pages = s.pages - m - 1;
        })
        (shift (k + 1) (m + 1) (begin_completion n s))
unfolding kio_bio_completion
begin_shift k m n s = ground arith

count_shift : (k m : ℕ) (s : LoopState) → 0 < k → shift (k - 1) m (count_completion s) ≡ shift k m s
count_shift k m s pos = ground arith

wake_shift :
    (k m : ℕ) (s : LoopState)
    → 0 < m
    → m ≤ s.pages
    → shift k (m - 1) (record s { pages = s.pages - 1 }) ≡ shift k m s
wake_shift k m s pos h = ground arith

-- As much as `m` pages, and a reachable state once every completion is over.
abbrev Refines : KioIo → (i : ℕ) → KioThreadConfig → (k m : ℕ) → LoopState → Type 0
Refines io i t k m s = (m ≤ s.pages) × Reach io i t (shift k m s)

module _ {io : KioIo} {i : ℕ} {t : KioThreadConfig} (deep : 1 ≤ t.queue_depth)
    (fits : t.queue_depth ≤ 1024) where
  FineStep-Refines :
      (f f' : Fine)
      → FineStep io f f'
      → Refines io i t f.late (f.late + f.waking) f.loop
      → Refines io i t f'.late (f'.late + f'.waking) f'.loop
  FineStep-Refines f f' (thread {l} st o) (h, r) =
      let v = Reach-Inv deep fits r in
      (
        Step-pages (f.late + f.waking) st o (omega (arith, v.paged)),
        Reach.next r (Step-shift f.late (f.late + f.waking) st o h),
      )
  FineStep-Refines f f' (begin n busy) (h, r) =
      let v = Reach-Inv deep fits r in
      (
        omega (arith, v.paged),
        subst (Reach io i t)
            (begin_shift f.late (f.late + f.waking) n f.loop
              ∙ ap (λ m. shift (f.late + 1) m (begin_completion n f.loop)) (omega arith))
            (Reach.next r (completion n busy)),
      )
  FineStep-Refines f f' (count late) (h, r) =
      let same : f.late - 1 + (f.waking + 1) ≡ f.late + f.waking = omega arith in
      (
        omega arith,
        subst (Reach io i t)
            (sym (
              ap (λ m. shift (f.late - 1) m (count_completion f.loop)) same
              ∙ count_shift f.late (f.late + f.waking) f.loop late))
            r,
      )
  FineStep-Refines f f' (wake_up waking) (h, r) =
      let same : f.late + (f.waking - 1) ≡ f.late + f.waking - 1 = omega arith in
      (
        omega arith,
        subst (Reach io i t)
            (sym (
              ap (λ m. shift f.late m (record f.loop { pages = f.loop.pages - 1 })) same
              ∙ wake_shift f.late (f.late + f.waking) f.loop (omega arith) h))
            r,
      )
  FineStep-Refines f f' (kfree over) (h, r) = (h, r)

  FineReach-Refines :
      {f : Fine} → FineReach io i t f → Refines io i t f.late (f.late + f.waking) f.loop
  FineReach-Refines FineReach.start = (omega arith, Reach.start)
  FineReach-Refines (FineReach.next {f} {f'} r st) = FineStep-Refines f f' st (FineReach-Refines r)

  -- For a queue depth from 1 to 1024: every state that a thread reaches with completions that run
  -- in steps, between which it and kio_run may run, is one that it reaches with completions in
  -- one step, once the completions that have begun are counted as over; and each of these still
  -- has its page.
  pub fine_refines_coarse :
      {f : Fine} → FineReach io i t f → Reach io i t (coarse f) × (f.late + f.waking ≤ f.loop.pages)
  fine_refines_coarse r = let (h, reached) = FineReach-Refines r in (reached, h)
