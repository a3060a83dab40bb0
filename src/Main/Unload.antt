-- ===== src/Main/Unload.antt =====
-- `kio_exit` while a run is under way: nothing on its way asks whether there is one, and the device
-- is closed first, in one step here. What follows, `kio_config_exit`, frees the settings that the
-- threads read, and is left out.
use kernel_io.Common.{
  ℕ, ◌<◌, ◌≡◌, ◌≢◌, ◌⊎◌, inl, inr, ap, true, false, none, some, arith, List, length, All,
  All-get_elem?, get_elem?, done,
}
use mathlib.Core.Path.{subst}
use kernel_io.Config.Types.{KioThreadConfig}
use kernel_io.Io.Device.{KioIo}
use kernel_io.Io.Open.{BlockKernel, Dev, kio_io_exit}
use kernel_io.Io.Open.Balance.{kio_io_exit_zeroes}
use kernel_io.Run.Offset.OnDevice.{Runnable}
use kernel_io.Run.Loop.{
  Pc, top, throttle, waiting, woken, alloc, choose, settle, dispatch, submit, signals, drain,
  finished, LoopState,
}
use kernel_io.Run.Loop.Closed.{Small, Committed, Doomed}
use kernel_io.Run.Loop.Invariant.{Inv}
use kernel_io.Run.Loop.Requests.{Holds, Reach-Sound}
use kernel_io.Run.Loop.Safety.{Reach-Inv}
use kernel_io.Run.System.{System, returned, SystemReach, SystemSteps}
use kernel_io.Run.System.Closed.{
  AllAnswered, submissions_among, Carried, SystemSteps-Carried, none_among, SystemSteps-Doomed,
}
use kernel_io.Run.System.Hangs.{Left-before}
use kernel_io.Run.System.Order.{SystemReach-Order, Order-over}
use kernel_io.Run.System.Threads.{Deep, SystemReach-Reach}

Holds-Small : (io : KioIo) (pc : Pc) → Holds io pc → Small pc
Holds-Small io (settle q) h = h.1
Holds-Small io (dispatch q) h = h.1
Holds-Small io (submit q) h = h.1
Holds-Small io top h = tt
Holds-Small io throttle h = tt
Holds-Small io waiting h = tt
Holds-Small io woken h = tt
Holds-Small io alloc h = tt
Holds-Small io choose h = tt
Holds-Small io signals h = tt
Holds-Small io drain h = tt
Holds-Small io finished h = tt

-- It has not returned and, once its submission has failed, waits for a count that stays.
abbrev Stands : LoopState → Type 0
Stands l = Committed l.pc ⊎ ((l.pc ≡ drain) × (l.th.dispatched ≢ 0))

Doomed-Stands :
    {t : KioThreadConfig} (l : LoopState) → Doomed l → l.signal ≡ false → Inv t l → Stands l
Doomed-Stands l (inl committed) quiet v = inl committed
Doomed-Stands l (inr lost) quiet v = inr (ground (arith, v.counted, v.ended))

Stands-unfinished : (l : LoopState) → Stands l → l.pc ≢ finished
Stands-unfinished l (inl committed) p = rw p at committed
Stands-unfinished l (inr (drains, counted)) p = cc

module _ (block : BlockKernel) (d d' : Dev) (ts : List KioThreadConfig) (deep : All Deep ts)
    (runnable : All (Runnable d.io.dev_byte_size) ts) (blocks : 0 < d.io.dev_block_size)
    {s s' : System} (reach : SystemReach d.io ts s) (closes : kio_io_exit block d ≡ done d')
    (ss : SystemSteps d'.io ts s s') (answered : AllAnswered ss) where
  open-Carried : Carried ts s
  open-Carried = record {
    order = SystemReach-Order d.io ts reach;
    threads = λ i l at.
        let (t, config, r) = SystemReach-Reach d.io ts reach i l at in
        let (low, high) = All-get_elem? Deep ts i deep config in
        let can_run = All-get_elem? (Runnable d.io.dev_byte_size) ts i runnable config in
        (
          t,
          config,
          record {
            inv = Reach-Inv low high r;
            small = Holds-Small d.io l.pc (Reach-Sound blocks can_run r).holds;
          },
        );
  }

  no_bytes : d'.io.dev_byte_size ≡ 0
  no_bytes = ap (λ io. io.dev_byte_size) (kio_io_exit_zeroes block d d' closes)

  no_blocks : d'.io.dev_block_size ≡ 0
  no_blocks = ap (λ io. io.dev_block_size) (kio_io_exit_zeroes block d d' closes)

  -- If kio_io_exit, called while a run is under way, returns, and after it every submission of a
  -- thread is answered by kio_io_submit, in some mode, with some page and whatever the block
  -- layer returns, then no submission of the run succeeds any more. Conditions: queue depths from
  -- 1 to 1024, settings that are runnable on the device before it is closed, and a block size of
  -- that device that is not zero.
  pub none_after_unload : submissions_among ss ≡ 0
  none_after_unload = none_among d'.io ts deep no_bytes no_blocks ss answered open-Carried

  -- If kio_io_exit, called while a run is under way, returns, and after it every submission of a
  -- thread is answered by kio_io_submit, in some mode, with some page and whatever the block
  -- layer returns, and if a thread was about to count its request as dispatched or to submit it
  -- when the device was closed, then after any further steps, and as long as no signal is pending
  -- for that thread: kio_run has not returned, kio_running is set, there is no summary, and the
  -- thread either has not yet come to submit, or stands in its last wait with a count of
  -- dispatched requests that is not zero. Conditions: queue depths from 1 to 1024, settings that
  -- are runnable on the device before it is closed, and a block size of that device that is not
  -- zero.
  pub unloaded_run_hangs :
      (k : ℕ) (l l' : LoopState)
      → get_elem? s.loops k ≡ some l
      → Committed l.pc
      → get_elem? s'.loops k ≡ some l'
      → l'.signal ≡ false
      → (s'.pc ≢ returned)
        × (s'.kio_running ≡ true)
        × (s'.report ≡ none)
        × (Committed l'.pc ⊎ ((l'.pc ≡ drain) × (l'.th.dispatched ≢ 0)))
  unloaded_run_hangs k l l' at committed at' quiet =
      let c = SystemSteps-Carried d'.io ts deep no_bytes no_blocks ss open-Carried in
      let (m, e, doomed) =
        SystemSteps-Doomed d'.io ts deep no_bytes no_blocks k ss answered open-Carried
          (l, at, inl committed) in
      let agree : m ≡ l' = ground arith in
      let (t, config, sane) = c.threads k l' at' in
      let stands = Doomed-Stands l' (subst Doomed agree doomed) quiet sane.inv in
      let open_ended : s'.pc ≢ returned = λ p.
        let over =
          All-get_elem? (λ n. n.pc ≡ finished) s'.loops k (Order-over (length ts) s' c.order p)
            at' in
        Stands-unfinished l' stands over in
      let (busy, silent) = Left-before s'.pc s' open_ended c.order.left in
      (open_ended, busy, silent, stands)
