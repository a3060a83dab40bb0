-- ===== src/Config/Types.antt =====
-- driver/kio_config.h: the configuration, as the sysfs files leave it and as a run reads it.
use kernel_io.Common.{ℕ, ◌<◌, ◌^◌, ◌≡◌, Option, none, some, List, [], length, All}

-- `struct kio_thread_config`. Every number is the bit pattern of its field: 64 bits for the two
-- off_t, 32 for the uint32_t and for the int32_t `offset_stride`, 8 for `read_mix_percent`, 1 for
-- the three bit-fields. `kobj` is NULL or names a kobject.
pub record KioThreadConfig : Type 0 where
  pub kobj : Option ℕ
  pub offset_low : ℕ
  pub offset_high : ℕ
  pub block_size : ℕ
  pub queue_depth : ℕ
  pub offset_stride : ℕ
  pub offset_random : ℕ
  pub burst_delay : ℕ
  pub burst_finish : ℕ
  pub read_mix_percent : ℕ
  pub read_burst : ℕ
  pub write_burst : ℕ
  pub read_sleep_usec : ℕ
  pub write_sleep_usec : ℕ

-- `struct kio_config`, less its mutex; `threads` is NULL or the array that was allocated.
pub record KioConfig : Type 0 where
  pub runtime_seconds : ℕ
  pub num_threads : ℕ
  pub threads : Option (List KioThreadConfig)

abbrev pub kio_max_runtime_seconds : ℕ
kio_max_runtime_seconds = 3600

-- An access through `threads`: behind NULL no index is mapped.
abbrev pub cells : Option (List KioThreadConfig) → List KioThreadConfig
cells none = []
cells (some ths) = ths

-- Writes through `threads` change the array and leave the pointer.
abbrev pub set_cells :
    Option (List KioThreadConfig) → List KioThreadConfig → Option (List KioThreadConfig)
set_cells none ths = none
set_cells (some _) ths = some ths

-- Each field holds what its type can hold.
pub record Fits (t : KioThreadConfig) : Type 0 where
  pub low_fits : t.offset_low < 2 ^ 64
  pub high_fits : t.offset_high < 2 ^ 64
  pub block_fits : t.block_size < 2 ^ 32
  pub depth_fits : t.queue_depth < 2 ^ 32
  pub stride_fits : t.offset_stride < 2 ^ 32
  pub random_fits : t.offset_random < 2
  pub delay_fits : t.burst_delay < 2
  pub finish_fits : t.burst_finish < 2
  pub mix_fits : t.read_mix_percent < 2 ^ 8
  pub read_burst_fits : t.read_burst < 2 ^ 32
  pub write_burst_fits : t.write_burst < 2 ^ 32
  pub read_sleep_fits : t.read_sleep_usec < 2 ^ 32
  pub write_sleep_fits : t.write_sleep_usec < 2 ^ 32

-- The array is allocated, one element for each thread, and each field is of its type.
pub record IsAllocated (c : KioConfig) (ths : List KioThreadConfig) : Type 0 where
  pub allocated : c.threads ≡ some ths
  pub counted : length ths ≡ c.num_threads
  pub fits : All Fits ths
