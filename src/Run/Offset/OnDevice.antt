-- ===== src/Run/Offset/OnDevice.antt =====
-- Every request of a validated workload lies on the device.
use kernel_io.Common.{
  ℕ, ◌+◌, ◌-◌, ◌*◌, ◌/◌, ◌%◌, ◌^◌, ◌≤◌, ◌<◌, ◌≡◌, refl, true, arith, done, ◌==◌, if◌then◌else◌,
  Bool-cases, inl, inr,
}
use native.Mathlib.Nat.{mul-mod_left}
use kernel_io.Config.Types.{KioThreadConfig}
use kernel_io.Io.Device.{KioIo, page_size, kio_io_offset_is_valid}
use kernel_io.Run.Thread.{KioThread}
use kernel_io.Run.Offset.{round_down, advance, pick, kio_thread_next_offset}

-- What a thread's settings need for its requests to lie on a device of `dev_size` bytes.
pub record Runnable (dev_size : ℕ) (t : KioThreadConfig) : Type 0 where
  pub low_below_high : t.offset_low < t.offset_high
  pub high_on_device : t.offset_high + t.block_size ≤ dev_size
  pub high_nonneg : t.offset_high < 2 ^ 63
  pub one_page : t.block_size ≡ page_size
  pub stride_min : 512 ≤ t.offset_stride
  pub stride_max : t.offset_stride ≤ 2 ^ 20

-- Where the next sequential request would lie.
pub record OnDevice (dev_size : ℕ) (th : KioThread) : Type 0 where
  pub next_fits : th.next_offset + page_size ≤ dev_size
  pub next_nonneg : th.next_offset < 2 ^ 63

-- On a number that is not negative it is the multiple of `b` just below.
pub round_down-eq : (b x : ℕ) → x < 2 ^ 63 → round_down b x ≡ x / b * b
unfolding round_down
round_down-eq b x small = ground arith

pub round_down_lem :
    (b x : ℕ)
    → 0 < b
    → x < 2 ^ 63
    → (round_down b x ≤ x) × (round_down b x % b ≡ 0) × (x < round_down b x + b)
round_down_lem b x pos small =
    rw (round_down-eq b x small) (omega arith, mul-mod_left (x / b) b, omega arith)

advance-OnDevice :
    (dev_size : ℕ) (th : KioThread)
    → Runnable dev_size th.config
    → OnDevice dev_size th
    → (advance th + page_size ≤ dev_size) × (advance th < 2 ^ 63)
unfolding advance
advance-OnDevice dev_size th r o = ground arith

pick-bounds :
    (lo hi : ℕ) (th : KioThread)
    → th.config.offset_low < th.config.offset_high
    → th.config.offset_high < 2 ^ 63
    → let x = pick lo hi (th.config.offset_high - th.config.offset_low) th in
      (th.config.offset_low ≤ x) × (x < th.config.offset_high)
unfolding pick
pick-bounds lo hi th p q = ground arith

-- What is asked of an offset: the page at it lies on the device, and it is a whole block.
abbrev pub Addressable : KioIo → ℕ → Type 0
Addressable io off =
    (off + page_size ≤ io.dev_byte_size) × (off % io.dev_block_size ≡ 0) × (off < 2 ^ 63)

module _ (io : KioIo) (blocks : 0 < io.dev_block_size) (lo hi : ℕ) (th : KioThread) where
  round_down-Addressable :
      (x : ℕ)
      → x + page_size ≤ io.dev_byte_size
      → x < 2 ^ 63
      → Addressable io (round_down io.dev_block_size x)
  round_down-Addressable x p q =
      let r = round_down_lem io.dev_block_size x blocks q in (omega arith, r.1, omega arith)

  -- The two degenerate branches are not taken, and the range does not wrap.
  pub kio_thread_next_offset-eq :
      th.config.offset_low < th.config.offset_high
      → th.config.offset_high < 2 ^ 63
      → kio_thread_next_offset io lo hi th ≡ (
          if th.config.offset_random == 0
          then (round_down io.dev_block_size th.next_offset, record th { next_offset = advance th })
          else (
            round_down io.dev_block_size
                (pick lo hi (th.config.offset_high - th.config.offset_low) th),
            th,
          ))
  unfolding kio_thread_next_offset
  kio_thread_next_offset-eq p q = ground arith

  -- For runnable settings, a next_offset on the device and a device block size that is not zero,
  -- kio_thread_next_offset returns a whole number of device blocks from which a page fits on the
  -- device, keeps next_offset on the device, and leaves the settings alone.
  pub kio_thread_next_offset-Addressable :
      Runnable io.dev_byte_size th.config
      → OnDevice io.dev_byte_size th
      → Addressable io (kio_thread_next_offset io lo hi th).0
        × OnDevice io.dev_byte_size (kio_thread_next_offset io lo hi th).1
        × ((kio_thread_next_offset io lo hi th).1.config ≡ th.config)
  kio_thread_next_offset-Addressable r o =
      rw (kio_thread_next_offset-eq r.low_below_high r.high_nonneg)
        (elim (Bool-cases (th.config.offset_random == 0)) [
          | inl sequential ↦ rw sequential (
              let (fits, nonneg) = advance-OnDevice io.dev_byte_size th r o in
              (
                round_down-Addressable th.next_offset o.next_fits o.next_nonneg,
                record { next_fits = fits; next_nonneg = nonneg },
                refl,
              ))
          | inr random ↦ rw random (
              let (above, below) = pick-bounds lo hi th r.low_below_high r.high_nonneg in
              (round_down-Addressable _ (omega arith) (omega arith), o, refl))
        ])

  -- So `kio_io_submit` does not refuse it.
  pub kio_io_offset_is_valid-next_offset :
      Runnable io.dev_byte_size th.config
      → OnDevice io.dev_byte_size th
      → kio_io_offset_is_valid io (kio_thread_next_offset io lo hi th).0 page_size ≡ done true
  unfolding kio_io_offset_is_valid
  kio_io_offset_is_valid-next_offset r o =
      let a = (kio_thread_next_offset-Addressable r o).0 in ground arith

-- Nothing but `next_offset` changes.
pub next_offset_frame :
    (io : KioIo) (lo hi : ℕ) (th : KioThread)
    → (kio_thread_next_offset io lo hi th).1
      ≡ record th { next_offset = (kio_thread_next_offset io lo hi th).1.next_offset }
unfolding kio_thread_next_offset
next_offset_frame io lo hi th = ground arith
