-- ===== src/Io/Device.antt =====
-- The device as the module has opened it, and the test of an offset (driver/kio_io.h).
use kernel_io.Common.{
  ℕ, ◌+◌, ◌%◌, Bool, false, Option, List, leb, ◌==◌, if◌then◌else◌, Exec, done, fault, u64,
  magnitude64,
}

-- The text that `dev_name` points to, and how many bytes it lies behind the start of the memory
-- that was allocated for it.
pub record Name : Type 0 where
  pub text : List ℕ
  pub skipped : ℕ

-- `struct kio_io`. The name is NULL or a pointer, `bdev` NULL or a block device that the kernel gave
-- out, `bio_set` whether the set of bios has been set up; the sizes are in bytes.
pub record KioIo : Type 0 where
  pub dev_name : Option Name
  pub bdev : Option ℕ
  pub dev_byte_size : ℕ
  pub dev_block_size : ℕ
  pub bio_set : Bool

abbrev pub page_size : ℕ
page_size = 4096

unfoldable pub kio_io_dev_byte_size : KioIo → ℕ
kio_io_dev_byte_size io = io.dev_byte_size

unfoldable pub kio_io_dev_block_size : KioIo → ℕ
kio_io_dev_block_size io = io.dev_block_size

abbrev pub kio_io_dev_name : KioIo → Option Name
kio_io_dev_name io = io.dev_name

-- `off + size` is unsigned. The remainder is taken only if the sum is in range, and faults if the
-- block size is zero.
unfoldable pub kio_io_offset_is_valid : KioIo → (off size : ℕ) → Exec Bool
kio_io_offset_is_valid io off size =
    if leb (u64 (off + size)) io.dev_byte_size
    then (if io.dev_block_size == 0 then fault else done (magnitude64 off % io.dev_block_size == 0))
    else done false
