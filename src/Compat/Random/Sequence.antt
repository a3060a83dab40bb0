-- ===== src/Compat/Random/Sequence.antt =====
-- The numbers of one call after another.
use kernel_io.Common.{ℕ, zero, suc, ◌+◌, ◌*◌, ◌%◌, ◌≡◌, ◌≢◌, refl, List, [], ◌∷◌, arith, u32}
use kernel_io.Compat.Random.{prandom_u32, draws}

-- A congruence on 32 bits alone.
pub lcg : ℕ → ℕ
lcg r = u32 (r * 1664525 + 1013904223)

pub lcgs : (calls r : ℕ) → List ℕ
lcgs zero r = []
lcgs (suc n) r = lcg r ∷ lcgs n (lcg r)

prandom_u32-lcg :
    (state : ℕ)
    → ((prandom_u32 state).0 ≡ lcg (u32 state)) × (u32 (prandom_u32 state).1 ≡ lcg (u32 state))
unfolding prandom_u32 lcg
prandom_u32-lcg state = omega arith

draws-eq-lcgs : (n state : ℕ) → draws n state ≡ lcgs n (u32 state)
unfolding draws lcgs
draws-eq-lcgs zero state = refl
draws-eq-lcgs (suc n) state =
    let (r, next) = prandom_u32-lcg state in
    rw (r, draws-eq-lcgs n (prandom_u32 state).1, next) refl

-- Each number is odd if the one before is even, and the other way round.
abbrev pub Alternates : ℕ → List ℕ → Type 0
Alternates p [] = Unit
Alternates p (r ∷ rs) = (r % 2 ≢ p % 2) × Alternates r rs

lcgs-Alternates : (n r : ℕ) → Alternates r (lcgs n r)
unfolding lcgs lcg
lcgs-Alternates zero r = tt
lcgs-Alternates (suc n) r = (omega arith, lcgs-Alternates n (lcg r))

u32-Alternates : (p : ℕ) (rs : List ℕ) → Alternates (u32 p) rs → Alternates p rs
u32-Alternates p [] a = tt
u32-Alternates p (r ∷ rs) a = (omega (arith, a.0), a.1)

-- The numbers that successive calls of the driver's own prandom_u32 return are those of a
-- congruence on 32 bits, and odd and even ones alternate.
pub draws-lcgs :
    (n state : ℕ) → (draws n state ≡ lcgs n (u32 state)) × Alternates state (draws n state)
draws-lcgs n state =
    let same = draws-eq-lcgs n state in
    (same, rw same (u32-Alternates state (lcgs n (u32 state)) (lcgs-Alternates n (u32 state))))
