-- ===== src/Run/Stats.antt =====
-- The statistics of a run: `kio_run_stats_thread` and `kio_run_stats_total` of driver/kio_run.c.
pub mod Totals
pub mod Averages
use kernel_io.Common.{
  ℕ, ◌+◌, ◌*◌, ◌/◌, Bool, ◌||◌, List, [], ◌∷◌, ◌==◌, if◌then◌else◌, u32, u64, sdiv64, sign_extend,
}
use kernel_io.Run.Thread.{KioThread}

abbrev pub nsec_per_sec : ℕ
nsec_per_sec = 1000000000

-- `struct kio_run_stats`
pub record KioRunStats : Type 0 where
  pub num_threads : ℕ
  pub dispatched : ℕ
  pub completed : ℕ
  pub slat_total : ℕ
  pub clat_total : ℕ
  pub bps_total : ℕ
  pub runtime_total : ℕ

abbrev pub no_stats : KioRunStats
no_stats = record {
  num_threads = 0;
  dispatched = 0;
  completed = 0;
  slat_total = 0;
  clat_total = 0;
  bps_total = 0;
  runtime_total = 0;
}

-- The numbers that are printed.
pub record Report : Type 0 where
  pub cnt : ℕ
  pub lat : ℕ
  pub slat : ℕ
  pub clat : ℕ
  pub iops : ℕ
  pub bps : ℕ

-- `clat_total` is signed, `slat_total` is not.
unfoldable pub thread_report : KioThread → Report
thread_report th =
    let cnt = th.completed in
    let slat = if cnt == 0 then 0 else th.slat_total / cnt in
    let clat = if cnt == 0 then 0 else sdiv64 th.clat_total cnt in
    record {
      cnt = cnt;
      lat = u64 (slat + clat);
      slat = slat;
      clat = clat;
      iops = if th.runtime == 0 then 0 else u32 (u64 (cnt * nsec_per_sec) / th.runtime);
      bps =
          if th.runtime == 0
          then 0
          else u64 (u64 (cnt * th.config.block_size) * nsec_per_sec) / th.runtime;
    }

unfoldable pub kio_run_stats_thread : KioThread → KioRunStats → KioRunStats
kio_run_stats_thread th st = record {
  num_threads = u32 (st.num_threads + 1);
  dispatched = u64 (st.dispatched + sign_extend th.dispatched);
  completed = u64 (st.completed + th.completed);
  slat_total = u64 (st.slat_total + th.slat_total);
  clat_total = u64 (st.clat_total + th.clat_total);
  bps_total = u64 (st.bps_total + (thread_report th).bps);
  runtime_total = u64 (st.runtime_total + th.runtime);
}

unfoldable pub kio_run_stats_total : KioRunStats → Report
kio_run_stats_total st =
    let cnt = u32 st.completed in
    let slat = if cnt == 0 then 0 else st.slat_total / cnt in
    let clat = if cnt == 0 then 0 else st.clat_total / cnt in
    let idle = st.runtime_total == 0 || st.num_threads == 0 in
    record {
      cnt = cnt;
      lat = u64 (slat + clat);
      slat = slat;
      clat = clat;
      iops =
          if idle
          then 0
          else u32 (u64 (cnt * nsec_per_sec) / u64 (st.runtime_total * st.num_threads));
      bps = if idle then 0 else st.bps_total / st.num_threads;
    }

-- The loop at the end of `kio_run`.
unfoldable pub sum_stats : List KioThread → KioRunStats → KioRunStats
sum_stats [] st = st
sum_stats (th ∷ ths) st = sum_stats ths (kio_run_stats_thread th st)
