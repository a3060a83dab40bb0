-- ===== src/Tests/Numbers.antt =====
-- Random numbers, latencies, and the remap to a disk.
use kernel_io.Common.{
  ℕ, ◌≤◌, ◌<◌, ◌⊎◌, ◌↔◌, ◌+◌, All, ◌*◌, ◌/◌, ◌≡◌, refl, List, [], ◌∷◌, arith, length, u32,
}
use kernel_io.Compat.Random.{initial_state, draws}
use kernel_io.Compat.Random.Sequence.{lcgs, Alternates, draws-lcgs}
use kernel_io.Compat.Version.{field_of_bio_has_disk, fields_of_submit}
use kernel_io.Compat.Version.Fields.{submit_fields_iff}
use kernel_io.Run.Thread.{fresh_thread}
use kernel_io.Run.Stats.{thread_report}
use kernel_io.Run.Latency.{BioAt, kio_io_bio_set_start_time, Timed, complete_all}
use kernel_io.Run.Latency.StartTimes.{Started}
use kernel_io.Run.Latency.Averages.{total_latency, measured_latency}
use kernel_io.Tests.Data.{sequential}

draws-lcgs_example :
    (draws 3 initial_state ≡ lcgs 3 (u32 initial_state))
    × Alternates initial_state (draws 3 initial_state)
draws-lcgs_example = draws-lcgs 3 initial_state

abbrev bio_at : ℕ → BioAt
bio_at a = record { address = a; bi_max_vecs = 1; second_bv_page = a + 80 }

-- The second bio is submitted while the first is under way.
abbrev times : List Timed
times =
    record {
      bio = bio_at 4096;
      start = 100;
      before = λ a. 0;
      others = (bio_at 8192, 200) ∷ [];
      now = 700;
    }
    ∷ record {
      bio = bio_at 8192;
      start = 200;
      before = kio_io_bio_set_start_time 100 (bio_at 4096) (λ a. 0);
      others = [];
      now = 1200;
    }
    ∷ []

times-Started : All Started times
times-Started = omega arith

measured_latency_example :
    ((thread_report (complete_all times (fresh_thread 0 sequential))).cnt ≡ 2)
    × ((thread_report (complete_all times (fresh_thread 0 sequential))).clat
        ≡ total_latency times / length times)
unfolding total_latency
measured_latency_example =
    measured_latency times (fresh_thread 0 sequential) refl refl times-Started (omega arith)
      (omega arith) (omega arith)

abbrev version : ℕ → ℕ → ℕ → ℕ
version a b c = a * 65536 + b * 256 + c

submit_fields_iff_example :
    All
      (λ f. f ≡ field_of_bio_has_disk version (version 5 10 0))
      (fields_of_submit version (version 5 10 0))
    ↔ ((version 4 13 0 ≤ version 5 10 0) × (version 5 10 0 < version 5 9 0))
      ⊎ (version 5 12 0 ≤ version 5 10 0)
submit_fields_iff_example =
    submit_fields_iff version (version 5 10 0)
      (record { first = omega arith; second = omega arith; third = omega arith })
