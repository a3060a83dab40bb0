-- ===== src/Run/Latency/StartTimes.antt =====
-- Each bio keeps its own start time.
use kernel_io.Common.{ℕ, ◌-◌, ◌^◌, ◌<◌, ◌≡◌, ◌≢◌, ◌∙◌, refl, List, [], ◌∷◌, arith, All}
use kernel_io.Run.Latency.{
  Memory, BioAt, kio_io_bio_start_time_ptr, kio_io_bio_set_start_time, kio_io_bio_get_start_time,
  kio_bio_get_latency, set_start_times, Timed, measured,
}

-- Another bio, both at addresses of 64 bits.
abbrev pub Apart : BioAt → BioAt → Type 0
Apart bio other = (bio.address < 2 ^ 64) × (other.address < 2 ^ 64) × (other.address ≢ bio.address)

get-set :
    (time : ℕ) (bio : BioAt) (m : Memory)
    → kio_io_bio_get_start_time bio (kio_io_bio_set_start_time time bio m) ≡ time
unfolding kio_io_bio_get_start_time kio_io_bio_set_start_time kio_io_bio_start_time_ptr
get-set time bio m = ground arith

get-set_other :
    (time : ℕ) (bio other : BioAt) (m : Memory)
    → Apart bio other
    → kio_io_bio_get_start_time bio (kio_io_bio_set_start_time time other m)
      ≡ kio_io_bio_get_start_time bio m
unfolding kio_io_bio_get_start_time kio_io_bio_set_start_time kio_io_bio_start_time_ptr
get-set_other time bio other m (low, high, apart) = ground arith

get-set_others :
    (bio : BioAt) (others : List (BioAt × ℕ)) (m : Memory)
    → All (λ o. Apart bio o.0) others
    → kio_io_bio_get_start_time bio (set_start_times others m) ≡ kio_io_bio_get_start_time bio m
get-set_others bio [] m apart = refl
get-set_others bio ((other, time) ∷ others) m (apart, rest) =
    get-set_others bio others (kio_io_bio_set_start_time time other m) rest
    ∙ get-set_other time bio other m apart

-- A bio that was submitted at a time other than 0, and whose start time is its own.
abbrev pub Started : Timed → Type 0
Started b = (b.start ≢ 0) × All (λ o. Apart b.bio o.0) b.others

pub measured-Started : (b : Timed) → Started b → measured b ≡ b.now - b.start
unfolding kio_bio_get_latency
measured-Started b (started, apart) =
    let m = kio_io_bio_set_start_time b.start b.bio b.before in
    let read = get-set_others b.bio b.others m apart ∙ get-set b.start b.bio b.before in
    ground (arith, read)
