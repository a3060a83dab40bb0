-- ===== src/Config/Valid/Again.antt =====
-- A configuration that `kio_config_is_valid` has accepted, validated once more.
use kernel_io.Common.{ℕ, ◌^◌, ◌<◌, ◌≡◌, refl, Bool, true, List, [], ◌∷◌, some, arith, done, All}
use mathlib.Core.List.{map}
use kernel_io.Config.Types.{KioThreadConfig, KioConfig, IsAllocated}
use kernel_io.Config.Valid.{kio_config_is_valid}
use kernel_io.Config.Valid.Thread.{Acceptable, capped}
use kernel_io.Config.Valid.Verdict.{
  AcceptableConfig, kio_config_is_valid_iff, kio_config_is_valid_complete,
}
use kernel_io.Config.Valid.Loop.{AllLowered}
use kernel_io.Config.Valid.Lowered.{AllLowered-IsAllocated}

capped_twice :
    (dev_size : ℕ) (t : KioThreadConfig) → capped dev_size (capped dev_size t) ≡ capped dev_size t
capped_twice dev_size t = ground arith

all_capped_twice :
    (dev_size : ℕ) (ths : List KioThreadConfig)
    → map (capped dev_size) (map (capped dev_size) ths) ≡ map (capped dev_size) ths
all_capped_twice dev_size [] = refl
all_capped_twice dev_size (t ∷ ts) = rw (capped_twice dev_size t, all_capped_twice dev_size ts)

capped-AllLowered :
    (dev_size : ℕ) (ths : List KioThreadConfig) → AllLowered ths (map (capped dev_size) ths)
capped-AllLowered dev_size [] = tt
capped-AllLowered dev_size (t ∷ ts) = ((refl, ground arith), capped-AllLowered dev_size ts)

module _ (is_power_of_2 : ℕ → Bool) (dev_size : ℕ) where
  capped-Acceptable :
      (t : KioThreadConfig)
      → Acceptable is_power_of_2 dev_size t
      → Acceptable is_power_of_2 dev_size (capped dev_size t)
  capped-Acceptable t v = ground arith

  all_capped-Acceptable :
      (ths : List KioThreadConfig)
      → All (Acceptable is_power_of_2 dev_size) ths
      → All (Acceptable is_power_of_2 dev_size) (map (capped dev_size) ths)
  all_capped-Acceptable [] v = tt
  all_capped-Acceptable (t ∷ ts) v = (capped-Acceptable t v.0, all_capped-Acceptable ts v.1)

  pub valid_again :
      (cpus : ℕ)
      → dev_size < 2 ^ 64
      → (c : KioConfig) (ths : List KioThreadConfig) → IsAllocated c ths
      → (c' : KioConfig) → kio_config_is_valid is_power_of_2 dev_size cpus c ≡ done (true, c')
      → kio_config_is_valid is_power_of_2 dev_size cpus c' ≡ done (true, c')
  valid_again cpus dev_fits c ths a c' valid =
      let (v, same) =
        (kio_config_is_valid_iff is_power_of_2 dev_size cpus dev_fits c ths a c').0 valid in
      let ths' = map (capped dev_size) ths in
      let a' = AllLowered-IsAllocated ths ths' c (capped-AllLowered dev_size ths) a in
      let v' : AcceptableConfig is_power_of_2 dev_size cpus (record c { threads = some ths' })
          ths' =
        record {
          threads_min = v.threads_min;
          threads_max = v.threads_max;
          runtime_min = v.runtime_min;
          runtime_max = v.runtime_max;
          each = all_capped-Acceptable ths v.each;
        } in
      let again =
        kio_config_is_valid_complete is_power_of_2 dev_size cpus dev_fits
          (record c { threads = some ths' }) ths' a' v' in
      rw same (rw again (rw (all_capped_twice dev_size ths) refl))
