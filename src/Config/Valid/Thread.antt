-- ===== src/Config/Valid/Thread.antt =====
-- The checks of one thread against a specification in plain numbers.
use kernel_io.Common.{
  ℕ, ◌+◌, ◌-◌, ◌^◌, ◌≤◌, ◌<◌, ◌≡◌, ◌≢◌, ◌⊎◌, ◌↔◌, refl, inl, inr, Bool, true, arith, min,
  Bool-cases, &&-iff,
}
use kernel_io.Config.Types.{KioThreadConfig, Fits}
use kernel_io.Config.Valid.{
  check_sizes, check_offsets, check_mix, check_sleeps, check_ranges, cap_offset_high, check_bursts,
  check_capped, check_thread,
}

-- What a thread's settings must meet for a device of `dev_size` bytes.
pub record Acceptable (is_power_of_2 : ℕ → Bool) (dev_size : ℕ) (t : KioThreadConfig) : Type 0 where
  pub block_min : 512 ≤ t.block_size
  pub block_max : t.block_size ≤ 2 ^ 20
  pub block_power : is_power_of_2 t.block_size ≡ true
  pub stride_min : 512 ≤ t.offset_stride
  pub stride_max : t.offset_stride ≤ 2 ^ 20
  pub depth_min : 1 ≤ t.queue_depth
  pub depth_max : t.queue_depth ≤ 1024
  pub high_nonneg : t.offset_high < 2 ^ 63
  pub mix_max : t.read_mix_percent ≤ 100
  pub read_burst_max : t.read_burst ≤ 1024
  pub write_burst_max : t.write_burst ≤ 1024
  pub read_sleep_max : t.read_sleep_usec ≤ 100000
  pub write_sleep_max : t.write_sleep_usec ≤ 100000
  pub low_on_device : t.offset_low + t.block_size ≤ dev_size
  pub low_below_high : t.offset_low < t.offset_high
  pub low_below_last : t.offset_low + t.block_size < dev_size
  pub some_burst : 0 < t.read_burst + t.write_burst
  pub reads_burst : (t.read_mix_percent ≢ 100) ⊎ (0 < t.read_burst)
  pub writes_burst : (t.read_mix_percent ≢ 0) ⊎ (0 < t.write_burst)

-- The ranges, in plain numbers.
record InRanges (t : KioThreadConfig) : Type 0 where
  block_min : 512 ≤ t.block_size
  block_max : t.block_size ≤ 2 ^ 20
  stride_min : 512 ≤ t.offset_stride
  stride_max : t.offset_stride ≤ 2 ^ 20
  depth_min : 1 ≤ t.queue_depth
  depth_max : t.queue_depth ≤ 1024
  low_nonneg : t.offset_low < 2 ^ 63
  high_nonneg : t.offset_high < 2 ^ 63
  mix_max : t.read_mix_percent ≤ 100
  read_burst_max : t.read_burst ≤ 1024
  write_burst_max : t.write_burst ≤ 1024
  read_sleep_max : t.read_sleep_usec ≤ 100000
  write_sleep_max : t.write_sleep_usec ≤ 100000

check_sizes_iff :
    (t : KioThreadConfig)
    → Fits t
    → (check_sizes t ≡ true) ↔ (
        (512 ≤ t.block_size)
        × (t.block_size ≤ 2 ^ 20)
        × (512 ≤ t.offset_stride)
        × (t.offset_stride ≤ 2 ^ 20)
        × (1 ≤ t.queue_depth)
        × (t.queue_depth ≤ 1024))
unfolding check_sizes
check_sizes_iff t f = (λ h. ground arith, λ h. ground arith)

check_offsets_iff :
    (t : KioThreadConfig)
    → Fits t
    → (check_offsets t ≡ true) ↔ ((t.offset_low < 2 ^ 63) × (t.offset_high < 2 ^ 63))
unfolding check_offsets
check_offsets_iff t f = (λ h. ground arith, λ h. ground arith)

check_mix_iff :
    (t : KioThreadConfig)
    → (check_mix t ≡ true)
      ↔ ((t.read_mix_percent ≤ 100) × (t.read_burst ≤ 1024) × (t.write_burst ≤ 1024))
unfolding check_mix
check_mix_iff t = (λ h. ground arith, λ h. ground arith)

check_sleeps_iff :
    (t : KioThreadConfig)
    → (check_sleeps t ≡ true) ↔ ((t.read_sleep_usec ≤ 100000) × (t.write_sleep_usec ≤ 100000))
unfolding check_sleeps
check_sleeps_iff t = (λ h. ground arith, λ h. ground arith)

check_ranges_sound : (t : KioThreadConfig) → Fits t → check_ranges t ≡ true → InRanges t
unfolding check_ranges
check_ranges_sound t f h =
    let (sizes, rest) = (&&-iff _ _).0 h in
    let (offsets, rest') = (&&-iff _ _).0 rest in
    let (mix, sleeps) = (&&-iff _ _).0 rest' in
    let sizes' = (check_sizes_iff t f).0 sizes in
    let offsets' = (check_offsets_iff t f).0 offsets in
    let mix' = (check_mix_iff t).0 mix in let sleeps' = (check_sleeps_iff t).0 sleeps in omega arith

check_ranges_complete : (t : KioThreadConfig) → Fits t → InRanges t → check_ranges t ≡ true
unfolding check_ranges
check_ranges_complete t f r = (&&-iff _ _).1 (
  (check_sizes_iff t f).1 (omega arith),
  (&&-iff _ _).1 (
    (check_offsets_iff t f).1 (omega arith),
    (&&-iff _ _).1 ((check_mix_iff t).1 (omega arith), (check_sleeps_iff t).1 (omega arith)),
  ),
)

check_bursts_iff :
    (t : KioThreadConfig)
    → (check_bursts t ≡ true) ↔ (
        (0 < t.read_burst + t.write_burst)
        × ((t.read_mix_percent ≢ 100) ⊎ (0 < t.read_burst))
        × ((t.read_mix_percent ≢ 0) ⊎ (0 < t.write_burst)))
unfolding check_bursts
check_bursts_iff t = (λ h. ground arith, λ h. ground arith)

-- The cap takes `offset_high` down to the last block of the device, and never up.
cap_offset_high_lem :
    (dev_size : ℕ) (t : KioThreadConfig)
    → t.offset_high < 2 ^ 63
    → t.block_size ≤ 2 ^ 20
    → t.block_size ≤ dev_size
    → dev_size < 2 ^ 64
    → cap_offset_high dev_size t
      ≡ record t { offset_high = min t.offset_high (dev_size - t.block_size) }
unfolding cap_offset_high
cap_offset_high_lem dev_size t a b c d = ground arith

-- What an accepted thread is left as.
abbrev pub capped : ℕ → KioThreadConfig → KioThreadConfig
capped dev_size t = record t { offset_high = min t.offset_high (dev_size - t.block_size) }

check_capped_iff :
    (t : KioThreadConfig)
    → t.offset_low < 2 ^ 63
    → t.offset_high < 2 ^ 63
    → ((check_capped t).0 ≡ true) ↔ ((t.offset_low < t.offset_high) × (check_bursts t ≡ true))
unfolding check_capped
check_capped_iff t a b = (λ h. ground arith, λ h. ground arith)

module _ (is_power_of_2 : ℕ → Bool) (dev_size : ℕ) (dev_fits : dev_size < 2 ^ 64) where
  -- A thread that passes meets the specification.
  pub check_thread_sound :
      (t : KioThreadConfig)
      → Fits t
      → (check_thread is_power_of_2 dev_size t).0 ≡ true
      → Acceptable is_power_of_2 dev_size t
  unfolding check_thread
  check_thread_sound t f h = elim (Bool-cases (check_ranges t)) [
    | inr bad ↦ ground arith
    | inl good ↦
        let r = check_ranges_sound t f good in
        ground (
          arith,
          cap_offset_high_lem dev_size t,
          check_capped_iff (capped dev_size t),
          check_bursts_iff (capped dev_size t),
        )
  ]

  -- A thread that meets the specification passes, and only `offset_high` has come down.
  pub check_thread_complete :
      (t : KioThreadConfig)
      → Fits t
      → Acceptable is_power_of_2 dev_size t
      → check_thread is_power_of_2 dev_size t ≡ (true, capped dev_size t)
  unfolding check_thread check_capped
  check_thread_complete t f a = ground (
    arith,
    check_ranges_complete t f (omega arith),
    cap_offset_high_lem dev_size t,
    check_bursts_iff (capped dev_size t),
  )

-- Whatever the verdict, a thread changes by a lower `offset_high` at most.
abbrev pub Lowered : KioThreadConfig → KioThreadConfig → Type 0
Lowered t t' = (t' ≡ record t { offset_high = t'.offset_high }) × (t'.offset_high ≤ t.offset_high)

cap_offset_high-Lowered :
    (dev_size : ℕ) (t : KioThreadConfig)
    → dev_size < 2 ^ 64
    → t.offset_high < 2 ^ 63
    → t.block_size ≤ 2 ^ 20
    → t.block_size ≤ dev_size
    → Lowered t (cap_offset_high dev_size t)
cap_offset_high-Lowered dev_size t d h b e =
    rw (cap_offset_high_lem dev_size t h b e d) (refl, omega arith)

pub check_thread-Lowered :
    (is_power_of_2 : ℕ → Bool) (dev_size : ℕ) (t : KioThreadConfig)
    → dev_size < 2 ^ 64
    → Fits t
    → Lowered t (check_thread is_power_of_2 dev_size t).1
unfolding check_thread check_capped
check_thread-Lowered p dev_size t d f = elim (Bool-cases (check_ranges t)) [
  | inr bad ↦ ground arith
  | inl good ↦
      let r = check_ranges_sound t f good in ground (arith, cap_offset_high-Lowered dev_size t d)
]
