-- ===== src/Run/Offset.antt =====
-- `kio_thread_next_offset` of driver/kio_run.c.
pub mod OnDevice
pub mod InRange
use kernel_io.Common.{
  ℕ, ◌+◌, ◌*◌, ◌%◌, ◌^◌, Bool, true, false, ltb, ◌==◌, if◌then◌else◌, not, u32, u64, sub64, slt32,
  slt64, sdiv64, sign_extend,
}
use kernel_io.Io.Device.{KioIo, kio_io_dev_block_size}
use kernel_io.Run.Thread.{KioThread}

-- "must be a multiple of a block size"
pub round_down : (block_size result : ℕ) → ℕ
round_down block_size result = u64 (sdiv64 result block_size * block_size)

-- The sequential branch: where `next_offset` goes after the request at hand.
unfoldable pub advance : KioThread → ℕ
advance th =
    let ktc = th.config in
    let stride = ktc.offset_stride in
    let next = u64 (th.next_offset + sign_extend stride) in
    let r_end = u64 (next + ktc.block_size) in
    if slt64 ktc.offset_high r_end
    then (if slt32 0 stride then ktc.offset_low else r_end)
    else if slt64 r_end ktc.offset_low
    then (if slt32 stride 0 then r_end else ktc.offset_low)
    else next

-- The random branch, for the two numbers that `prandom_u32` returns.
unfoldable pub pick : (lo hi range : ℕ) → KioThread → ℕ
pick lo hi range th = u64 (th.config.offset_low + (u32 hi * 2 ^ 32 + u32 lo) % range)

-- `lo` and `hi` are what `prandom_u32` returns, if it is called.
unfoldable pub kio_thread_next_offset : KioIo → (lo hi : ℕ) → KioThread → ℕ × KioThread
unfolding kio_io_dev_block_size
kio_thread_next_offset io lo hi th =
    let block_size = kio_io_dev_block_size io in
    let range = sub64 th.config.offset_high th.config.offset_low in
    if block_size == 0
    then (0, th)
    else if range == 0
    then (th.config.offset_low, th)
    else if not (th.config.offset_random == 0)
    then (round_down block_size (pick lo hi range th), th)
    else (round_down block_size th.next_offset, record th { next_offset = advance th })
