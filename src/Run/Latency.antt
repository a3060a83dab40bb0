-- ===== src/Run/Latency.antt =====
-- The latency of a bio (driver/kio_io.h): the time of its submission is kept in memory, and
-- `kio_bio_get_latency` reads it when the bio completes. Times are 64-bit patterns.
pub mod StartTimes
pub mod Averages
use kernel_io.Common.{
  ℕ, ◌+◌, ◌-◌, ◌&&◌, not, Option, none, some, List, [], ◌∷◌, ltb, ◌==◌, if◌then◌else◌, sub64,
}
use kernel_io.Run.Thread.{KioThread}
use kernel_io.Run.Completion.{kio_bio_completion}

-- Numbers of 64 bits at their addresses.
abbrev pub Memory : Type 0
Memory = ℕ → ℕ

-- Where a bio is, `bi_max_vecs`, and where the `bv_page` of its second vector is.
pub record BioAt : Type 0 where
  pub address : ℕ
  pub bi_max_vecs : ℕ
  pub second_bv_page : ℕ

abbrev pub kio_use_bio_set_min_count : ℕ
kio_use_bio_set_min_count = 1024

-- In front of the bio if there is a set of bios, otherwise behind the page of the second vector.
unfoldable pub kio_io_bio_start_time_ptr : BioAt → Option ℕ
kio_io_bio_start_time_ptr bio =
    if not (kio_use_bio_set_min_count == 0)
    then some (sub64 bio.address 8)
    else if ltb bio.bi_max_vecs 2
    then none
    else some (bio.second_bv_page + 8)

unfoldable pub kio_io_bio_set_start_time : (time : ℕ) → BioAt → Memory → Memory
kio_io_bio_set_start_time time bio m = elim (kio_io_bio_start_time_ptr bio) [
  | none ↦ m
  | some p ↦ λ a. if a == p then time else m a
]

unfoldable pub kio_io_bio_get_start_time : BioAt → Memory → ℕ
kio_io_bio_get_start_time bio m = elim (kio_io_bio_start_time_ptr bio) [ none ↦ 0 | some p ↦ m p ]

unfoldable pub kio_bio_get_latency : (now : ℕ) → BioAt → Memory → ℕ
kio_bio_get_latency now bio m =
    let start = kio_io_bio_get_start_time bio m in
    if not (start == 0) && ltb start now then now - start else 0

-- The start times of other bios are set.
abbrev pub set_start_times : List (BioAt × ℕ) → Memory → Memory
set_start_times [] m = m
set_start_times ((bio, time) ∷ others) m =
    set_start_times others (kio_io_bio_set_start_time time bio m)

-- A bio from its submission to its completion: its start time is set, then those of others.
pub record Timed : Type 0 where
  pub bio : BioAt
  pub start : ℕ
  pub before : Memory
  pub others : List (BioAt × ℕ)
  pub now : ℕ

abbrev pub measured : Timed → ℕ
measured b =
    kio_bio_get_latency b.now b.bio
      (set_start_times b.others (kio_io_bio_set_start_time b.start b.bio b.before))

-- `kio_bio_completion` with the latency that it reads, for one bio after another.
pub complete_all : List Timed → KioThread → KioThread
complete_all [] th = th
complete_all (b ∷ bs) th = complete_all bs (kio_bio_completion (measured b) th)
