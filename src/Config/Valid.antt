-- ===== src/Config/Valid.antt =====
-- `kio_config_is_valid` of driver/kio_config.c, with the two macros that it is written with.
-- The kernel's `is_power_of_2` and `num_online_cpus` are parameters; warnings are left out.
pub mod Thread
pub mod Loop
pub mod Verdict
pub mod Lowered
pub mod Again
use kernel_io.Common.{
  ℕ, zero, suc, ◌+◌, ◌^◌, Bool, true, false, ◌&&◌, ◌||◌, not, List, ltb, ◌==◌, if◌then◌else◌,
  get_elem?, set, Exec, done, ◌>>=◌, load, u64, slt32, slt64, sub64,
}
use kernel_io.Config.Types.{KioThreadConfig, KioConfig, kio_max_runtime_seconds, cells, set_cells}

abbrev pub long_max : ℕ
long_max = 9223372036854775807

-- `CHECK_VAR` and `CHECK_THRD_VAR` at an unsigned field, at an int32_t and at an off_t.
abbrev pub check_var : ℕ → ℕ → ℕ → Bool
check_var val min max = not (ltb val min || ltb max val)

abbrev check_var_s32 : ℕ → ℕ → ℕ → Bool
check_var_s32 val min max = not (slt32 val min || slt32 max val)

abbrev check_var_s64 : ℕ → ℕ → ℕ → Bool
check_var_s64 val min max = not (slt64 val min || slt64 max val)

-- The range checks, in the source's order, by what they are about.
check_sizes : KioThreadConfig → Bool
check_sizes t =
    check_var t.block_size 512 (2 ^ 20)
    && check_var_s32 t.offset_stride 512 (2 ^ 20)
    && check_var t.queue_depth 1 1024

check_offsets : KioThreadConfig → Bool
check_offsets t = check_var_s64 t.offset_low 0 long_max && check_var_s64 t.offset_high 0 long_max

check_mix : KioThreadConfig → Bool
check_mix t =
    check_var t.read_mix_percent 0 100
    && check_var t.read_burst 0 1024
    && check_var t.write_burst 0 1024

check_sleeps : KioThreadConfig → Bool
check_sleeps t = check_var t.read_sleep_usec 0 100000 && check_var t.write_sleep_usec 0 100000

check_ranges : KioThreadConfig → Bool
unfolding check_sizes check_offsets check_mix check_sleeps
check_ranges t = check_sizes t && (check_offsets t && (check_mix t && check_sleeps t))

-- "cap offset_high to device size"
cap_offset_high : ℕ → KioThreadConfig → KioThreadConfig
cap_offset_high dev_size t =
    if ltb dev_size (u64 (t.offset_high + t.block_size))
    then record t { offset_high = sub64 dev_size t.block_size }
    else t

-- The three checks of the bursts.
check_bursts : KioThreadConfig → Bool
check_bursts t =
    not (t.read_burst == 0 && t.write_burst == 0)
    && not (t.read_mix_percent == 100 && t.read_burst == 0)
    && not (t.read_mix_percent == 0 && t.write_burst == 0)

-- The checks that follow the cap.
check_capped : KioThreadConfig → Bool × KioThreadConfig
check_capped t = if not (slt64 t.offset_low t.offset_high) then (false, t) else (check_bursts t, t)

module _ (is_power_of_2 : ℕ → Bool) (dev_size : ℕ) where
  -- The body of the loop: the verdict, and the thread as it is left.
  pub check_thread : KioThreadConfig → Bool × KioThreadConfig
  check_thread t =
      if not (check_ranges t)
      then (false, t)
      else if not (is_power_of_2 t.block_size)
      then (false, t)
      else if ltb dev_size (u64 (t.offset_low + t.block_size))
      then (false, t)
      else check_capped (cap_offset_high dev_size t)

  -- The loop, with `rounds` threads left from index `i` on. What was capped stays capped.
  pub check_threads : (rounds i : ℕ) → List KioThreadConfig → Exec (Bool × List KioThreadConfig)
  check_threads zero i ths = done (true, ths)
  check_threads (suc rounds) i ths = load (get_elem? ths i) >>= λ t.
      let (good, t') = check_thread t in
      if good then check_threads rounds (i + 1) (set ths i t') else done (false, set ths i t')

  pub kio_config_is_valid : (cpus : ℕ) → KioConfig → Exec (Bool × KioConfig)
  kio_config_is_valid cpus c =
      if not (check_var c.num_threads 1 cpus)
      then done (false, c)
      else if not (check_var c.runtime_seconds 1 kio_max_runtime_seconds)
      then done (false, c)
      else (check_threads c.num_threads 0 (cells c.threads) >>= λ r.
          done (r.0, record c { threads = set_cells c.threads r.1 }))
