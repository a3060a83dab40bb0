-- ===== src/Run/Loop/Window.antt =====
-- Where the requests of a sequential thread lie, from its first to its last.
use kernel_io.Common.{
  ℕ, ◌+◌, ◌%◌, ◌^◌, ◌≤◌, ◌<◌, ◌≡◌, ◌⊎◌, ◌∙◌, inl, inr, refl, ap, sym, zero, suc, arith,
}
use mathlib.Core.Path.{subst}
use native.Mathlib.Decide.{ℕ_discrete}
use kernel_io.Config.Types.{KioThreadConfig}
use kernel_io.Io.Device.{KioIo}
use kernel_io.Run.Completion.{kio_bio_completion}
use kernel_io.Run.Dir.{kio_thread_next_dir}
use kernel_io.Run.Dir.Bursts.{next_dir_frame}
use kernel_io.Run.Thread.{KioThread}
use kernel_io.Run.Offset.{kio_thread_next_offset}
use kernel_io.Run.Offset.OnDevice.{Runnable, OnDevice, round_down-eq}
use kernel_io.Run.Offset.InRange.{
  InWindow, advance_lem, sequential_step, kio_thread_next_offset-InWindow,
}
use kernel_io.Run.Requests.{Draw, Request, next_request}
use kernel_io.Run.Loop.{
  Pc, settle, dispatch, submit, signals, drain, finished, LoopState, Step, stop_at_top, enter,
  too_busy, has_room, wake, stop_woken, go_woken, no_page, new_page, chosen, no_wait, burst_over,
  stop_settling, dispatched, submitted, submit_failed, no_signal, interrupted, drained, completion,
  kthread_stop, signalled, Reach, start, next,
}
use kernel_io.Run.Loop.Counts.{submits, submissions}
use kernel_io.Run.Loop.Requests.{Sound, Reach-Sound}

-- At or behind `offset_low`, and the first of a round or with its block before `offset_high`.
abbrev pub Within : KioThreadConfig → ℕ → Type 0
Within t x = (t.offset_low ≤ x) × ((x ≡ t.offset_low) ⊎ (x + t.block_size ≤ t.offset_high))

-- The offset that comes after so many submissions.
abbrev Fits : KioThreadConfig → (submissions x : ℕ) → Type 0
Fits t n x = (n ≡ 0 → x ≡ 0) × (0 < n → Within t x)

-- The request in the locals, if there is one, and what `next_offset` is for the next.
abbrev Ahead : KioThreadConfig → ℕ → (next_offset : ℕ) → Pc → Type 0
Ahead t n x (settle q) = Fits t n q.offset × Within t x
Ahead t n x (dispatch q) = Fits t n q.offset × Within t x
Ahead t n x (submit q) = Fits t n q.offset × Within t x
Ahead t n x signals = (0 < n) × Within t x
Ahead t n x drain = Unit
Ahead t n x finished = Unit
Ahead t n x _ = Fits t n x

-- The second request does not start before `offset_low` either.
abbrev pub Apart : KioThreadConfig → Type 0
Apart t = (t.offset_stride + t.block_size < t.offset_low) ⊎ (t.offset_low ≤ t.offset_stride)

module _ (io : KioIo) (blocks : 0 < io.dev_block_size) (small : io.dev_byte_size < 2 ^ 63)
    (lo hi : ℕ) (th : KioThread) (r : Runnable io.dev_byte_size th.config)
    (o : OnDevice io.dev_byte_size th) (sequential : th.config.offset_random ≡ 0) where
  next_offset_zero :
      Apart th.config
      → th.next_offset ≡ 0
      → ((kio_thread_next_offset io lo hi th).0 ≡ 0)
        × Within th.config (kio_thread_next_offset io lo hi th).1.next_offset
  next_offset_zero apart zeroed =
      let step = sequential_step io blocks small lo hi th r o sequential in
      let rounded = round_down-eq io.dev_block_size 0 (omega arith) in
      let advanced = advance_lem io.dev_byte_size th r o small in
      rw step (rw (zeroed, rounded) (omega arith), ground (arith, advanced))

  next_offset-Within :
      th.config.offset_low % io.dev_block_size ≡ 0
      → Within th.config th.next_offset
      → Within th.config (kio_thread_next_offset io lo hi th).0
        × Within th.config (kio_thread_next_offset io lo hi th).1.next_offset
  next_offset-Within aligned (above, below) =
      let step = sequential_step io blocks small lo hi th r o sequential in
      let w : InWindow th = record { above = above; below = below } in
      let (low, high, w') =
        kio_thread_next_offset-InWindow io blocks small lo hi th r o sequential aligned w in
      let kept = ap (λ q. q.1.config) step in
      let x = (kio_thread_next_offset io lo hi th).1.next_offset in
      ((low, high), subst (λ t. Within t x) kept (w'.above, w'.below))

module _ (io : KioIo) (blocks : 0 < io.dev_block_size) (small : io.dev_byte_size < 2 ^ 63)
    (t : KioThreadConfig) (runnable : Runnable io.dev_byte_size t)
    (sequential : t.offset_random ≡ 0) (aligned : t.offset_low % io.dev_block_size ≡ 0)
    (apart : Apart t) where
  next_offset_Fits :
      (n lo hi : ℕ) (th : KioThread)
      → th.config ≡ t
      → OnDevice io.dev_byte_size th
      → Fits t n th.next_offset
      → Fits t n (kio_thread_next_offset io lo hi th).0
        × Within t (kio_thread_next_offset io lo hi th).1.next_offset
  next_offset_Fits zero lo hi th same o v =
      let x = (kio_thread_next_offset io lo hi th).1.next_offset in
      let (first, w) =
        next_offset_zero io blocks small lo hi th (rw same runnable) o (rw same sequential)
          (rw same apart) (v.0 refl) in
      ((λ e. first, λ later. absurd (omega arith)), subst (λ c. Within c x) same w)
  next_offset_Fits (suc n) lo hi th same o v =
      let (q, th') = kio_thread_next_offset io lo hi th in
      let before = subst (λ c. Within c th.next_offset) (sym same) (v.1 (omega arith)) in
      let (w, w') =
        next_offset-Within io blocks small lo hi th (rw same runnable) o (rw same sequential)
          (rw same aligned) before in
      (
        (λ none. absurd (omega arith), λ later. subst (λ c. Within c q) same w),
        subst (λ c. Within c th'.next_offset) same w',
      )

  next_Fits :
      (n : ℕ) (d : Draw) (th : KioThread)
      → th.config ≡ t
      → OnDevice io.dev_byte_size th
      → Fits t n th.next_offset
      → Fits t n (next_request io d th).0.offset × Within t (next_request io d th).1.next_offset
  unfolding next_request
  next_Fits n d th same o v =
      let (kept, still, _) = next_dir_frame d.dir th in
      let th' = (kio_thread_next_dir d.dir th).1 in
      let o' : OnDevice io.dev_byte_size th' = omega arith in
      next_offset_Fits n d.lo d.hi th' (kept ∙ same) o' (subst (Fits t n) (sym still) v)

  add_zero : (n : ℕ) → n + 0 ≡ n
  add_zero n = omega arith

  Step-Ahead :
      (n : ℕ) {s s' : LoopState} (st : Step io s s')
      → Sound io t s
      → Ahead t n s.th.next_offset s.pc
      → Ahead t (n + submits st) s'.th.next_offset s'.pc
  unfolding kio_bio_completion
  Step-Ahead n (stop_at_top p b) v h = tt
  Step-Ahead n (enter p b) v h = ground arith
  Step-Ahead n (too_busy p b) v h = ground arith
  Step-Ahead n (has_room p b) v h = ground arith
  Step-Ahead n (wake p b) v h = ground arith
  Step-Ahead n (stop_woken p b) v h = tt
  Step-Ahead n (go_woken p b) v h = ground arith
  Step-Ahead n (no_page p) v h = tt
  Step-Ahead n (new_page p) v h = ground arith
  Step-Ahead n {s} (chosen d p) v h =
      let fits : Fits t n s.th.next_offset = rw p at h in
      let (now, later) = next_Fits n d s.th v.same_config v.on_device fits in
      subst
        (λ m.
          Fits t m (next_request io d s.th).0.offset
          × Within t (next_request io d s.th).1.next_offset)
        (sym (add_zero n)) (now, later)
  Step-Ahead n (no_wait q p b) v h = ground arith
  Step-Ahead n (burst_over q p b w g) v h = ground arith
  Step-Ahead n (stop_settling q p b w g) v h = tt
  Step-Ahead n (dispatched q p) v h = ground arith
  Step-Ahead n (submitted q x p) v h = ground arith
  Step-Ahead n (submit_failed q e p) v h = tt
  Step-Ahead n (no_signal p b) v h = ground arith
  Step-Ahead n (interrupted p b) v h = tt
  Step-Ahead n (drained r p b) v h = tt
  Step-Ahead n {s} (completion x p) v h =
      subst (λ m. Ahead t m s.th.next_offset s.pc) (sym (add_zero n)) h
  Step-Ahead n {s} kthread_stop v h =
      subst (λ m. Ahead t m s.th.next_offset s.pc) (sym (add_zero n)) h
  Step-Ahead n {s} signalled v h = subst (λ m. Ahead t m s.th.next_offset s.pc) (sym (add_zero n)) h

  Reach-Ahead :
      {i : ℕ} {s : LoopState} (r : Reach io i t s) → Ahead t (submissions r) s.th.next_offset s.pc
  unfolding submissions
  Reach-Ahead start = (λ none_yet. refl, λ some_before. absurd (omega arith))
  Reach-Ahead (next r st) =
      Step-Ahead (submissions r) st (Reach-Sound blocks runnable r) (Reach-Ahead r)

  -- In every state that a thread reaches in which it is about to submit a request: if no
  -- submission of it has succeeded yet, the request is at offset 0, whatever offset_low is, and
  -- otherwise it starts at or behind offset_low, and starts at offset_low or ends at or before
  -- offset_high. Conditions: sequential settings that are runnable on the device, on a device
  -- below 2 ^ 63 bytes with a block size that is not zero, of which offset_low is a multiple, and
  -- an offset_low that is at most the stride or more than the stride and a block.
  pub requests-Within :
      {i : ℕ} {s : LoopState} (r : Reach io i t s) (q : Request)
      → s.pc ≡ submit q
      → ((submissions r ≡ 0) × (q.offset ≡ 0)) ⊎ ((0 < submissions r) × Within t q.offset)
  requests-Within r q p =
      let ahead = Reach-Ahead r in
      let (first, later) = (rw p at ahead).0 in
      elim (ℕ_discrete (submissions r) 0) [
        | yes none ↦ inl (none, first none)
        | no some ↦ inr (omega arith, later (omega arith))
      ]
