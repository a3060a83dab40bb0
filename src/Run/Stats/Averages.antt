-- ===== src/Run/Stats/Averages.antt =====
-- The summary of several threads that have all done the same.
use kernel_io.Common.{
  ℕ, ◌+◌, ◌*◌, ◌/◌, ◌^◌, ◌≤◌, ◌<◌, ◌≡◌, ◌∙◌, sym, List, [], ◌∷◌, arith, length, All,
}
use native.Mathlib.Nat.{div-div-eq-div-mul, mul-div-mul_left}
use kernel_io.Run.Thread.{KioThread}
use kernel_io.Run.Stats.{
  nsec_per_sec, KioRunStats, no_stats, kio_run_stats_thread, kio_run_stats_total, sum_stats,
}

-- Every thread has completed `c` requests in `r` nanoseconds.
abbrev pub Alike : (c r : ℕ) → List KioThread → Type 0
Alike c r = All (λ th. (th.completed ≡ c) × (th.runtime ≡ r))

sum_stats-Alike :
    (c r : ℕ) (ths : List KioThread) (st : KioRunStats)
    → Alike c r ths
    → st.num_threads + length ths < 2 ^ 32
    → st.completed + length ths * c < 2 ^ 64
    → st.runtime_total + length ths * r < 2 ^ 64
    → ((sum_stats ths st).num_threads ≡ st.num_threads + length ths)
      × ((sum_stats ths st).completed ≡ st.completed + length ths * c)
      × ((sum_stats ths st).runtime_total ≡ st.runtime_total + length ths * r)
unfolding sum_stats kio_run_stats_thread
sum_stats-Alike c r [] st a h k l = omega arith
sum_stats-Alike c r (th ∷ ths) st a h k l =
    let ih = sum_stats-Alike c r ths (kio_run_stats_thread th st) a.1 in ground (arith, ih)

-- The quotient of the summary in plain numbers.
rate_divided_twice :
    (n c r : ℕ) → 0 < n → n * c * nsec_per_sec / (n * r * n) ≡ c * nsec_per_sec / r / n
rate_divided_twice n c r pos =
    let top : n * c * nsec_per_sec ≡ n * (c * nsec_per_sec) = omega arith in
    let bottom : n * r * n ≡ n * (r * n) = omega arith in
    rw (top, bottom)
      (mul-div-mul_left (c * nsec_per_sec) (r * n) pos
        ∙ sym (div-div-eq-div-mul (c * nsec_per_sec) r n))

total_iops :
    (n c r : ℕ) (st : KioRunStats)
    → st.num_threads ≡ n
    → st.completed ≡ n * c
    → st.runtime_total ≡ n * r
    → 0 < n
    → 0 < r
    → n * c < 2 ^ 32
    → n * r * n < 2 ^ 64
    → c * nsec_per_sec / r < 2 ^ 32
    → (kio_run_stats_total st).iops ≡ c * nsec_per_sec / r / n
unfolding kio_run_stats_total
total_iops n c r st num done time pos ran few fits rate =
    let busy : 0 < n * r = grind arith in
    let less : c * nsec_per_sec / r / n < 2 ^ 32 = omega arith in
    rw (num, done, time) (ground (arith, rate_divided_twice n c r pos))

-- If all of n threads have completed c requests in r nanoseconds, and none of the figures
-- overflows, then the summary's IOPS is the IOPS of one thread divided by n.
pub total_iops_divided_twice :
    (c r : ℕ) (ths : List KioThread)
    → Alike c r ths
    → 0 < length ths
    → 0 < r
    → length ths * c < 2 ^ 32
    → length ths * r * length ths < 2 ^ 64
    → length ths < 2 ^ 32
    → c * nsec_per_sec / r < 2 ^ 32
    → (kio_run_stats_total (sum_stats ths no_stats)).iops ≡ c * nsec_per_sec / r / length ths
total_iops_divided_twice c r ths a pos ran few fits many rate =
    let less : length ths * r ≤ length ths * r * length ths = grind arith in
    let (num, completed, time) =
      sum_stats-Alike c r ths no_stats a (omega arith) (omega arith) (omega arith) in
    total_iops (length ths) c r (sum_stats ths no_stats) (omega arith) (omega arith) (omega arith)
      pos ran few fits rate
