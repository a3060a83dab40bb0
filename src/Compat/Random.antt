-- ===== src/Compat/Random.antt =====
-- `prandom_u32` of driver/kio_compat.h, for kernels before 5.9: a linear congruence on a 64-bit
-- state of which the lower half is returned. A call by several threads at once is left out.
pub mod Sequence
use kernel_io.Common.{ℕ, zero, suc, ◌+◌, ◌*◌, ◌%◌, ◌^◌, List, [], ◌∷◌, u32, u64}

-- `static long long state`
abbrev pub initial_state : ℕ
initial_state = 282589933

-- The result, and the state that is left.
unfoldable pub prandom_u32 : (state : ℕ) → ℕ × ℕ
prandom_u32 state = let next = u64 (u64 (state * 1664525) + 1013904223) in (u32 next, next)

-- One call after another.
pub draws : (calls state : ℕ) → List ℕ
draws zero state = []
draws (suc n) state = let (r, next) = prandom_u32 state in r ∷ draws n next
