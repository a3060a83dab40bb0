-- ===== src/Run/Dir.antt =====
-- `kio_thread_next_dir` of driver/kio_run.c: reads and writes in bursts.
pub mod Bursts
use kernel_io.Common.{ℕ, ◌-◌, ◌%◌, Bool, true, false, ltb, leb, ◌==◌, if◌then◌else◌, not}
use kernel_io.Run.Thread.{KioThread}

-- `struct dir`
pub record Dir : Type 0 where
  pub is_write : Bool
  pub dir_changed : Bool
  pub new_burst : Bool

abbrev differs : Bool → Bool → Bool
differs true b = not b
differs false b = b

-- The label `finish`.
abbrev finish : (is_write new_burst : Bool) → KioThread → Dir × KioThread
finish w n th = (
  record { is_write = w; dir_changed = differs th.was_write w; new_burst = n },
  record th { was_write = w },
)

-- The burst that a counter of the configuration starts, less the request at hand.
abbrev burst_left : ℕ → ℕ
burst_left n = if n == 0 then 0 else n - 1

-- `random` is what `prandom_u32` returns, if it is called.
unfoldable pub kio_thread_next_dir : (random : ℕ) → KioThread → Dir × KioThread
kio_thread_next_dir random th =
    if not (th.read_burst == 0)
    then finish false false (record th { read_burst = th.read_burst - 1 })
    else if not (th.write_burst == 0)
    then finish true false (record th { write_burst = th.write_burst - 1 })
    else if leb 100 th.config.read_mix_percent
    then finish false false th
    else if ltb th.config.read_mix_percent 1
    then finish true false th
    else if ltb (random % 100) th.config.read_mix_percent
    then finish false true (record th { read_burst = burst_left th.config.read_burst })
    else finish true true (record th { write_burst = burst_left th.config.write_burst })
