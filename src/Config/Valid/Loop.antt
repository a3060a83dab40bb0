-- ===== src/Config/Valid/Loop.antt =====
-- The loop of `kio_config_is_valid` against a recursion over the list of threads.
use kernel_io.Common.{
  ℕ, ◌^◌, ◌<◌, ◌≡◌, inl, inr, Bool, true, false, refl, List, [], ◌∷◌, ◌++◌, arith, if◌then◌else◌,
  Bool-cases, done, length, get_elem?-append, set-append, length-snoc, All,
}
use mathlib.Core.List.{append_assoc, map}
use kernel_io.Config.Types.{KioThreadConfig, Fits}
use kernel_io.Config.Valid.{check_thread, check_threads}
use kernel_io.Config.Valid.Thread.{
  Acceptable, capped, Lowered, check_thread-Lowered, check_thread_sound, check_thread_complete,
}

-- The same threads, some with a lower `offset_high`.
abbrev pub AllLowered : List KioThreadConfig → List KioThreadConfig → Type 0
AllLowered [] [] = Unit
AllLowered (t ∷ ts) (t' ∷ ts') = Lowered t t' × AllLowered ts ts'
AllLowered _ _ = ⊥

pub AllLowered-refl : (ts : List KioThreadConfig) → AllLowered ts ts
AllLowered-refl [] = tt
AllLowered-refl (t ∷ ts) = ((refl, omega arith), AllLowered-refl ts)

module _ (is_power_of_2 : ℕ → Bool) (dev_size : ℕ) where
  -- One pass over the list, up to the first thread that fails.
  pub sweep : List KioThreadConfig → Bool × List KioThreadConfig
  sweep [] = (true, [])
  sweep (t ∷ ts) =
      let (good, t') = check_thread is_power_of_2 dev_size t in
      let (rest, ts') = sweep ts in if good then (rest, t' ∷ ts') else (false, t' ∷ ts)

  pub check_threads-eq-sweep :
      (before ts : List KioThreadConfig)
      → check_threads is_power_of_2 dev_size (length ts) (length before) (before ++ ts)
        ≡ done ((sweep ts).0, before ++ (sweep ts).1)
  unfolding check_threads sweep
  check_threads-eq-sweep before [] = refl
  check_threads-eq-sweep before (t ∷ ts) =
      let t' = (check_thread is_power_of_2 dev_size t).1 in
      let ih = check_threads-eq-sweep (before ++ t' ∷ []) ts in
      rw (get_elem?-append before t ts, set-append before t t' ts)
        (elim (Bool-cases (check_thread is_power_of_2 dev_size t).0) [
          | inl good ↦ rw good (
              rw
                (
                  length-snoc before t',
                  append_assoc before (t' ∷ []) ts,
                  append_assoc before (t' ∷ []) (sweep ts).1,
                )
                at ih)
          | inr bad ↦ rw bad
        ])

  module _ (dev_fits : dev_size < 2 ^ 64) where
    pub sweep_sound :
        (ts : List KioThreadConfig)
        → All Fits ts
        → (sweep ts).0 ≡ true
        → All (Acceptable is_power_of_2 dev_size) ts
    unfolding sweep
    sweep_sound [] f h = tt
    sweep_sound (t ∷ ts) f h =
        ground (arith, check_thread_sound is_power_of_2 dev_size dev_fits t f.0, sweep_sound ts f.1)

    pub sweep_complete :
        (ts : List KioThreadConfig)
        → All Fits ts
        → All (Acceptable is_power_of_2 dev_size) ts
        → sweep ts ≡ (true, map (capped dev_size) ts)
    unfolding sweep
    sweep_complete [] f h = refl
    sweep_complete (t ∷ ts) f h =
        rw (
          check_thread_complete is_power_of_2 dev_size dev_fits t f.0 h.0,
          sweep_complete ts f.1 h.1,
        )

    pub sweep-Lowered : (ts : List KioThreadConfig) → All Fits ts → AllLowered ts (sweep ts).1
    unfolding sweep
    sweep-Lowered [] f = tt
    sweep-Lowered (t ∷ ts) f =
        let lowered = check_thread-Lowered is_power_of_2 dev_size t dev_fits f.0 in
        elim (Bool-cases (check_thread is_power_of_2 dev_size t).0) [
          | inl good ↦ rw good (lowered, sweep-Lowered ts f.1)
          | inr bad ↦ rw bad (lowered, AllLowered-refl ts)
        ]
