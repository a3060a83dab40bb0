-- ===== src/Run/Loop/Requests.antt =====
-- What a thread submits, wherever it stands in its loop.
use kernel_io.Common.{ℕ, ◌^◌, ◌<◌, ◌≡◌, ◌∙◌, refl, Bool, true, done, List, some, get_elem?, arith}
use kernel_io.Config.Types.{KioThreadConfig, KioConfig, IsAllocated}
use kernel_io.Config.Valid.{kio_config_is_valid}
use kernel_io.Io.Device.{KioIo, page_size, kio_io_dev_byte_size}
use kernel_io.Run.Offset.OnDevice.{Runnable, OnDevice}
use kernel_io.Run.Completion.{kio_bio_completion}
use kernel_io.Run.Requests.{Request}
use kernel_io.Run.Requests.Safety.{
  AcceptedBy, next_request-OnDevice, next_request-nonneg, fresh-OnDevice, validated-Runnable,
}
use kernel_io.Run.Loop.{
  Pc, settle, dispatch, submit, LoopState, Step, stop_at_top, enter, too_busy, has_room, wake,
  stop_woken, go_woken, no_page, new_page, chosen, no_wait, burst_over, stop_settling, dispatched,
  submitted, submit_failed, no_signal, interrupted, drained, completion, kthread_stop, signalled,
  Reach, start, next,
}

-- A request that the device accepts, at an offset that is not negative as a signed number.
abbrev pub Sent : KioIo → Request → Type 0
Sent io q = AcceptedBy io q × (q.offset < 2 ^ 63)

-- The request that the locals hold, if any, is such a one.
abbrev pub Holds : KioIo → Pc → Type 0
Holds io (settle q) = Sent io q
Holds io (dispatch q) = Sent io q
Holds io (submit q) = Sent io q
Holds io _ = Unit

pub record Sound (io : KioIo) (t : KioThreadConfig) (s : LoopState) : Type 0 where
  pub same_config : s.th.config ≡ t
  pub on_device : OnDevice io.dev_byte_size s.th
  pub holds : Holds io s.pc

module _ {io : KioIo} {t : KioThreadConfig} (blocks : 0 < io.dev_block_size)
    (runnable : Runnable io.dev_byte_size t) where
  Step-Sound : {s s' : LoopState} → Step io s s' → Sound io t s → Sound io t s'
  unfolding kio_bio_completion
  Step-Sound (stop_at_top p b) v = ground arith
  Step-Sound (enter p b) v = ground arith
  Step-Sound (too_busy p b) v = ground arith
  Step-Sound (has_room p b) v = ground arith
  Step-Sound (wake p b) v = ground arith
  Step-Sound (stop_woken p b) v = ground arith
  Step-Sound (go_woken p b) v = ground arith
  Step-Sound (no_page p) v = ground arith
  Step-Sound (new_page p) v = ground arith
  Step-Sound {s} (chosen d p) v =
      let can_run : Runnable io.dev_byte_size s.th.config = rw v.same_config runnable in
      let (accepted, on_device, same) =
        next_request-OnDevice io d s.th blocks can_run v.on_device in
      let nonneg = next_request-nonneg io d s.th blocks can_run v.on_device in
      record {
        same_config = same ∙ v.same_config;
        on_device = on_device;
        holds = (accepted, nonneg);
      }
  Step-Sound (no_wait q p b) v = ground arith
  Step-Sound (burst_over q p b w g) v = ground arith
  Step-Sound (stop_settling q p b w g) v = ground arith
  Step-Sound (dispatched q p) v = ground arith
  Step-Sound (submitted q n p) v = ground arith
  Step-Sound (submit_failed q e p) v = ground arith
  Step-Sound (no_signal p b) v = ground arith
  Step-Sound (interrupted p b) v = ground arith
  Step-Sound (drained r p b) v = ground arith
  Step-Sound (completion n p) v = ground arith
  Step-Sound kthread_stop v = ground arith
  Step-Sound signalled v = ground arith

  pub Reach-Sound : {i : ℕ} {s : LoopState} → Reach io i t s → Sound io t s
  Reach-Sound {i} start = record {
    same_config = refl;
    on_device = (let o = fresh-OnDevice io.dev_byte_size i t runnable in omega (arith, o));
    holds = tt;
  }
  Reach-Sound (next r st) = Step-Sound st (Reach-Sound r)

  pub submitted-Sent :
      {i : ℕ} {s : LoopState} (q : Request) → Reach io i t s → s.pc ≡ submit q → Sent io q
  submitted-Sent q r at = let v = Reach-Sound r in rw at at v.holds

-- If kio_config_is_valid accepts an allocated configuration for the device's size, and a thread
-- of what it leaves has the block size of one page, then in every state that the thread's loop
-- reaches, whatever completions, stop requests and signals come in between, the request that it
-- is about to submit has an offset that kio_io_offset_is_valid accepts for a page, provided that
-- the device's block size is not zero and its size is a 64-bit number.
pub submitted_valid :
    (is_power_of_2 : ℕ → Bool) (cpus : ℕ) (io : KioIo) (c c' : KioConfig)
    (ths ths' : List KioThreadConfig) (i : ℕ) (t : KioThreadConfig) (s : LoopState) (q : Request)
    → kio_io_dev_byte_size io < 2 ^ 64
    → 0 < io.dev_block_size
    → IsAllocated c ths
    → kio_config_is_valid is_power_of_2 (kio_io_dev_byte_size io) cpus c ≡ done (true, c')
    → c'.threads ≡ some ths'
    → get_elem? ths' i ≡ some t
    → t.block_size ≡ page_size
    → Reach io i t s
    → s.pc ≡ submit q
    → AcceptedBy io q
unfolding kio_io_dev_byte_size
submitted_valid p cpus io c c' ths ths' i t s q fits blocks a e at_threads at_i page r at =
    let runnable = validated-Runnable p cpus io c c' ths ths' i t fits a e at_threads at_i page in
    (submitted-Sent blocks runnable q r at).0
