-- ===== src/Run/Stats/Totals.antt =====
-- The totals are sums, and the figures of a thread are the quotients that they stand for.
use kernel_io.Common.{
  sum_of, ℕ, ◌+◌, ◌*◌, ◌/◌, ◌^◌, ◌<◌, ◌≡◌, refl, List, [], ◌∷◌, arith, length, u32, u64,
  sign_extend,
}
use kernel_io.Run.Thread.{KioThread}
use kernel_io.Run.Stats.{nsec_per_sec, KioRunStats, thread_report, kio_run_stats_thread, sum_stats}

div-lt : (x k r : ℕ) → 0 < r → x < k * r → x / r < k
div-lt x k r pos h = grind arith

module _ (th : KioThread) (some_done : 0 < th.completed) where
  thread_latencies :
      th.clat_total < 2 ^ 63
      → th.slat_total < 2 ^ 63
      → let r = thread_report th in
        (r.slat ≡ th.slat_total / th.completed)
        × (r.clat ≡ th.clat_total / th.completed)
        × (r.lat ≡ th.slat_total / th.completed + th.clat_total / th.completed)
  unfolding thread_report
  thread_latencies cl sl = (ground arith, ground arith, ground arith)

  thread_count : (thread_report th).cnt ≡ th.completed
  unfolding thread_report
  thread_count = refl

  thread_rates :
      th.completed < 2 ^ 32
      → 0 < th.runtime
      → th.completed * nsec_per_sec < 2 ^ 32 * th.runtime
      → th.completed * th.config.block_size * nsec_per_sec < 2 ^ 64
      → let r = thread_report th in
        (r.iops ≡ th.completed * nsec_per_sec / th.runtime)
        × (r.bps ≡ th.completed * th.config.block_size * nsec_per_sec / th.runtime)
  unfolding thread_report
  thread_rates few pos io by =
      (ground (arith, div-lt (th.completed * nsec_per_sec) (2 ^ 32) th.runtime), ground arith)

  -- For a thread that has completed a request and has run for some time: if the latencies add up
  -- to less than 2 ^ 63, fewer than 2 ^ 32 requests have completed, the IOPS fits into 32 bits,
  -- and the bytes times 10 ^ 9 fit into 64, then the figures that are printed are the exact
  -- averages and rates.
  pub thread_report_exact :
      th.clat_total < 2 ^ 63
      → th.slat_total < 2 ^ 63
      → th.completed < 2 ^ 32
      → 0 < th.runtime
      → th.completed * nsec_per_sec < 2 ^ 32 * th.runtime
      → th.completed * th.config.block_size * nsec_per_sec < 2 ^ 64
      → thread_report th ≡ record {
        cnt = th.completed;
        lat = th.slat_total / th.completed + th.clat_total / th.completed;
        slat = th.slat_total / th.completed;
        clat = th.clat_total / th.completed;
        iops = th.completed * nsec_per_sec / th.runtime;
        bps = th.completed * th.config.block_size * nsec_per_sec / th.runtime;
      }
  thread_report_exact cl sl few pos io by =
      let (slat, clat, lat) = thread_latencies cl sl in
      let (iops, bps) = thread_rates few pos io by in
      λ i. record {
        cnt = thread_count i;
        lat = lat i;
        slat = slat i;
        clat = clat i;
        iops = iops i;
        bps = bps i;
      }

-- Each total of the summary is what it was before plus the sum of the figure over the threads,
-- modulo the width of the total.
pub sum_stats_lem :
    (ths : List KioThread) (st : KioRunStats)
    → let r = sum_stats ths st in
      (u32 r.num_threads ≡ u32 (st.num_threads + length ths))
      × (u64 r.dispatched ≡ u64 (st.dispatched + sum_of (λ th. sign_extend th.dispatched) ths))
      × (u64 r.completed ≡ u64 (st.completed + sum_of (λ th. th.completed) ths))
      × (u64 r.slat_total ≡ u64 (st.slat_total + sum_of (λ th. th.slat_total) ths))
      × (u64 r.clat_total ≡ u64 (st.clat_total + sum_of (λ th. th.clat_total) ths))
      × (u64 r.bps_total ≡ u64 (st.bps_total + sum_of (λ th. (thread_report th).bps) ths))
      × (u64 r.runtime_total ≡ u64 (st.runtime_total + sum_of (λ th. th.runtime) ths))
unfolding sum_stats kio_run_stats_thread
sum_stats_lem [] st = omega arith
sum_stats_lem (th ∷ ths) st = let ih = sum_stats_lem ths (kio_run_stats_thread th st) in omega arith
