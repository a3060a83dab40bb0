-- ===== src/Config/Valid/Lowered.antt =====
-- An array of threads in which `kio_config_is_valid` has lowered some `offset_high`.
use kernel_io.Common.{suc, ◌≡◌, ◌∙◌, sym, ap, refl, some, List, [], ◌∷◌, arith, All, length}
use mathlib.Core.Path.{subst}
use kernel_io.Config.Types.{KioThreadConfig, KioConfig, IsAllocated, Fits}
use kernel_io.Config.Valid.Thread.{Lowered}
use kernel_io.Config.Valid.Loop.{AllLowered}

AllLowered-length : (ts ts' : List KioThreadConfig) → AllLowered ts ts' → length ts' ≡ length ts
AllLowered-length [] [] low = refl
AllLowered-length (t ∷ ts) (t' ∷ ts') low = ap suc (AllLowered-length ts ts' low.1)
AllLowered-length [] (t' ∷ ts') low = absurd low
AllLowered-length (t ∷ ts) [] low = absurd low

Lowered-Fits : (t t' : KioThreadConfig) → Lowered t t' → Fits t → Fits t'
Lowered-Fits t t' (same, less) f = subst Fits (sym same) (omega arith)

AllLowered-Fits : (ts ts' : List KioThreadConfig) → AllLowered ts ts' → All Fits ts → All Fits ts'
AllLowered-Fits [] [] low fits = tt
AllLowered-Fits (t ∷ ts) (t' ∷ ts') low fits =
    (Lowered-Fits t t' low.0 fits.0, AllLowered-Fits ts ts' low.1 fits.1)
AllLowered-Fits [] (t' ∷ ts') low fits = absurd low
AllLowered-Fits (t ∷ ts) [] low fits = absurd low

-- Lower ends of the offsets leave the array as well formed, and the block sizes alone.
pub AllLowered-IsAllocated :
    (ths ths' : List KioThreadConfig) (c : KioConfig)
    → AllLowered ths ths'
    → IsAllocated c ths
    → IsAllocated (record c { threads = some ths' }) ths'
AllLowered-IsAllocated ths ths' c low a = record {
  allocated = refl;
  counted = AllLowered-length ths ths' low ∙ a.counted;
  fits = AllLowered-Fits ths ths' low a.fits;
}
