-- ===== src/Config/Vars/Fields.antt =====
-- Reading and writing one variable of a thread.
use kernel_io.Common.{ℕ, ◌^◌, ◌<◌, ◌≡◌, ◌≢◌, arith, ◌%◌, ok, sign_extend}
use kernel_io.Config.Types.{KioThreadConfig, Fits}
use kernel_io.Config.Vars.{
  VarIndex, kio_offset_random, kio_offset_stride, kio_offset_low, kio_offset_high,
  kio_read_mix_percent, kio_burst_delay, kio_burst_finish, invalid, read_var, write_var,
}

-- What a long becomes in a variable: it is kept whole, as a signed 32-bit number, or as one of so
-- many values from 0 up.
pub data Kind : Type 0 where
  whole : Kind
  signed : Kind
  below : ℕ → Kind

abbrev pub kind : VarIndex → Kind
kind kio_offset_low = whole
kind kio_offset_high = whole
kind kio_offset_stride = signed
kind kio_offset_random = below 2
kind kio_burst_delay = below 2
kind kio_burst_finish = below 2
kind kio_read_mix_percent = below (2 ^ 8)
kind _ = below (2 ^ 32)

abbrev pub fit : Kind → ℕ → ℕ
fit whole v = v
fit signed v = sign_extend (v % 2 ^ 32)
fit (below n) v = v % n

-- A variable reads as what its type makes of the value written.
pub read_var-write_var :
    (x : VarIndex) (v : ℕ) (t : KioThreadConfig) {t' : KioThreadConfig}
    → write_var x v t ≡ ok t'
    → read_var x t' ≡ ok (fit (kind x) v)
unfolding read_var write_var
read_var-write_var invalid v t h = cc
read_var-write_var _ v t h = ground arith

-- The other variables read as before.
pub read_var-write_var_ne :
    (x y : VarIndex) (v : ℕ) (t : KioThreadConfig) {t' : KioThreadConfig}
    → x ≢ y
    → write_var x v t ≡ ok t'
    → read_var y t' ≡ read_var y t
unfolding read_var write_var
read_var-write_var_ne x y v t ne h = ground arith

-- To write what a variable reads changes nothing.
pub write_var-read_var :
    (x : VarIndex) (v : ℕ) (t : KioThreadConfig)
    → Fits t
    → read_var x t ≡ ok v
    → write_var x v t ≡ ok t
unfolding read_var write_var
write_var-read_var invalid v t f h = cc
write_var-read_var _ v t f h = ground arith

pub write_var-Fits :
    (x : VarIndex) (v : ℕ) (t : KioThreadConfig) {t' : KioThreadConfig}
    → v < 2 ^ 64
    → Fits t
    → write_var x v t ≡ ok t'
    → Fits t'
unfolding write_var
write_var-Fits invalid v t b f h = cc
write_var-Fits _ v t b f h = ground arith

pub write_var-kobj :
    (x : VarIndex) (v : ℕ) (t : KioThreadConfig) {t' : KioThreadConfig}
    → write_var x v t ≡ ok t'
    → t'.kobj ≡ t.kobj
unfolding write_var
write_var-kobj invalid v t h = cc
write_var-kobj _ v t h = ground arith

pub read_var-lt :
    (x : VarIndex) (v : ℕ) (t : KioThreadConfig) → Fits t → read_var x t ≡ ok v → v < 2 ^ 64
unfolding read_var
read_var-lt invalid v t f h = cc
read_var-lt _ v t f h = ground arith
