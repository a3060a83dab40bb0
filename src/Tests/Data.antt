-- ===== src/Tests/Data.antt =====
-- A device of one gibibyte, and two threads for it.
use kernel_io.Common.{
  ℕ, ◌^◌, Bool, true, none, some, List, [], ◌∷◌, ◌==◌, Result, ok, err, einval, u64,
}
use kernel_io.Config.Types.{KioThreadConfig, KioConfig}
use kernel_io.Io.Device.{KioIo}
use kernel_io.Run.Requests.{Draw}

-- Stands for the kernel's `is_power_of_2` at the sizes that the tests use.
abbrev pub power : ℕ → Bool
power n = n == 4096

abbrev pub device : KioIo
device = record {
  dev_name = none;
  bdev = some 0;
  dev_byte_size = 2 ^ 30;
  dev_block_size = 512;
  bio_set = true;
}

-- Sequential reads and writes from 1 MiB on; `offset_high` lies behind the device.
abbrev pub sequential : KioThreadConfig
sequential = record {
  kobj = some 7;
  offset_low = 1048576;
  offset_high = 4294967295;
  block_size = 4096;
  queue_depth = 2;
  offset_stride = 4096;
  offset_random = 0;
  burst_delay = 0;
  burst_finish = 0;
  read_mix_percent = 70;
  read_burst = 3;
  write_burst = 2;
  read_sleep_usec = 0;
  write_sleep_usec = 0;
}

abbrev pub random_reads : KioThreadConfig
random_reads = record sequential { kobj = some 8; offset_random = 1; read_mix_percent = 100 }

abbrev pub two : List KioThreadConfig
two = sequential ∷ random_reads ∷ []

abbrev pub config : KioConfig
config = record { runtime_seconds = 5; num_threads = 2; threads = some two }

abbrev pub draw : ℕ → Draw
draw n = record { dir = n; lo = n; hi = 0 }

-- Stand for `kstrtol` and `sprintf`: a text of one element is a number.
abbrev pub parse : List ℕ → Result ℕ
parse (v ∷ []) = ok v
parse _ = err einval

abbrev pub print : ℕ → List ℕ
print v = v ∷ []

-- The same, cut down to a long.
abbrev pub small_parse : List ℕ → Result ℕ
small_parse (v ∷ []) = ok (u64 v)
small_parse _ = err einval
