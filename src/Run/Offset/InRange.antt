-- ===== src/Run/Offset/InRange.antt =====
-- Where the sequential requests of a validated workload lie between the two offsets.
use kernel_io.Common.{ℕ, ◌+◌, ◌%◌, ◌^◌, ◌≤◌, ◌<◌, ◌≡◌, ◌⊎◌, ◌∙◌, arith, if◌then◌else◌, ltb}
use kernel_io.Config.Types.{KioThreadConfig}
use kernel_io.Io.Device.{KioIo}
use kernel_io.Run.Thread.{KioThread, fresh_thread}
use kernel_io.Run.Offset.{round_down, advance, kio_thread_next_offset}
use kernel_io.Run.Offset.OnDevice.{
  Runnable, OnDevice, round_down-eq, round_down_lem, kio_thread_next_offset-eq,
}

-- For runnable settings, a next_offset on the device and a device below 2 ^ 63 bytes, the 64-bit
-- arithmetic of the sequential branch moves next_offset one stride on, and back to offset_low
-- when the block there would end behind offset_high or before offset_low.
pub advance_lem :
    (dev_size : ℕ) (th : KioThread)
    → Runnable dev_size th.config
    → OnDevice dev_size th
    → dev_size < 2 ^ 63
    → let t = th.config in
      let next = th.next_offset + t.offset_stride in
      advance th ≡ (
        if ltb t.offset_high (next + t.block_size)
        then t.offset_low
        else if ltb (next + t.block_size) t.offset_low
        then t.offset_low
        else next)
unfolding advance
advance_lem dev_size th r o d = ground arith

-- The next request starts at or behind `offset_low`, and it is the first of a round or it ends at
-- or before `offset_high`.
pub record InWindow (th : KioThread) : Type 0 where
  pub above : th.config.offset_low ≤ th.next_offset
  pub below :
      (th.next_offset ≡ th.config.offset_low)
      ⊎ (th.next_offset + th.config.block_size ≤ th.config.offset_high)

advance-InWindow :
    (dev_size : ℕ) (th : KioThread)
    → Runnable dev_size th.config
    → OnDevice dev_size th
    → dev_size < 2 ^ 63
    → InWindow th
    → InWindow (record th { next_offset = advance th })
advance-InWindow dev_size th r o d w = ground (arith, advance_lem dev_size th r o d)

-- Rounding down does not pass a multiple of the block size.
le-round_down : (b low x : ℕ) → 0 < b → x < 2 ^ 63 → low ≤ x → low % b ≡ 0 → low ≤ round_down b x
le-round_down b low x pos small le aligned = rw (round_down-eq b x small) (grind arith)

module _ (io : KioIo) (blocks : 0 < io.dev_block_size) (small : io.dev_byte_size < 2 ^ 63)
    (lo hi : ℕ) (th : KioThread) (r : Runnable io.dev_byte_size th.config)
    (o : OnDevice io.dev_byte_size th) (sequential : th.config.offset_random ≡ 0) where
  pub sequential_step :
      kio_thread_next_offset io lo hi th
      ≡ (round_down io.dev_block_size th.next_offset, record th { next_offset = advance th })
  sequential_step = ground (arith, kio_thread_next_offset-eq io blocks lo hi th)

  -- For sequential runnable settings whose offset_low is a whole number of device blocks, on a
  -- device below 2 ^ 63 bytes, with next_offset on the device and in its window: the request
  -- starts at or behind offset_low, starts at offset_low or ends at or before offset_high, and
  -- leaves next_offset in its window.
  pub kio_thread_next_offset-InWindow :
      th.config.offset_low % io.dev_block_size ≡ 0
      → InWindow th
      → let (off, th') = kio_thread_next_offset io lo hi th in
        (th.config.offset_low ≤ off)
        × ((off ≡ th.config.offset_low) ⊎ (off + th.config.block_size ≤ th.config.offset_high))
        × InWindow th'
  kio_thread_next_offset-InWindow aligned w =
      let rounded = round_down_lem io.dev_block_size th.next_offset blocks o.next_nonneg in
      let low =
        le-round_down io.dev_block_size th.config.offset_low th.next_offset blocks o.next_nonneg
          w.above aligned in
      rw sequential_step (low, ground arith, advance-InWindow io.dev_byte_size th r o small w)

-- With offset_low below offset_high, offset_high below 2 ^ 63 and a device block size that is not
-- zero, the first sequential request of a thread as kio_run sets it up is at offset 0, whatever
-- offset_low is.
pub first_request_at_zero :
    (io : KioIo) (lo hi i : ℕ) (t : KioThreadConfig)
    → 0 < io.dev_block_size
    → t.offset_low < t.offset_high
    → t.offset_high < 2 ^ 63
    → t.offset_random ≡ 0
    → (kio_thread_next_offset io lo hi (fresh_thread i t)).0 ≡ 0
first_request_at_zero io lo hi i t blocks p q sequential =
    rw (kio_thread_next_offset-eq io blocks lo hi (fresh_thread i t) p q)
      (rw sequential (round_down-eq io.dev_block_size 0 (omega arith) ∙ omega arith))
