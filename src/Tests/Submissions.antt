-- ===== src/Tests/Submissions.antt =====
-- Submissions, and the pauses after them.
use kernel_io.Common.{◌≡◌, ◌/◌, refl, true, false, some, [], ◌∷◌, arith, All, done, fault}
use kernel_io.Io.Device.{kio_io_offset_is_valid, page_size}
use kernel_io.Io.Submit.{BlockLayer, fill_bio, kio_io_submit}
use kernel_io.Io.Submit.Outcomes.{ComesTo, Submission, kio_io_submit-Submission}
use kernel_io.Run.Thread.{fresh_thread}
use kernel_io.Run.Dir.Bursts.{next_dirs}
use kernel_io.Run.Completion.{no_pause, pause_after}
use kernel_io.Run.Completion.Pauses.{read_only_no_pauses}
use kernel_io.Tests.Data.{device, random_reads}

-- A partition from sector 2048 on.
abbrev pub layer : BlockLayer
layer = record {
  bio_alloc = true;
  bio_add_page = 4096;
  bio_has_disk = true;
  bi_vcnt = 1;
  bv_page = some 5;
  bd_start_sect = some 2048;
  fops_submit_bio = false;
}

kio_io_submit-Submission_example :
    ComesTo 2 layer
      (kio_io_submit device 2 layer 1048576 (some 5) true)
      (Submission device 2 layer 1048576 (some 5) true)
kio_io_submit-Submission_example =
    kio_io_submit-Submission device 2 layer (omega arith) refl 0 refl 1048576 (omega arith) (some 5)
      true

-- In mode 2, on a disk whose driver takes requests.
no_driver_call : kio_io_submit device 2 layer 1048576 (some 5) true ≡ fault
unfolding kio_io_submit fill_bio kio_io_offset_is_valid
no_driver_call = refl

valid : kio_io_offset_is_valid device 1048576 page_size ≡ done true
unfolding kio_io_offset_is_valid
valid = refl

read_only_no_pauses_example :
    All
      (λ d.
        pause_after (λ usec. usec / 1000) (record random_reads { burst_delay = 1 }) d ≡ no_pause)
      (next_dirs (1 ∷ 99 ∷ []) (fresh_thread 1 (record random_reads { burst_delay = 1 }))).0
read_only_no_pauses_example =
    read_only_no_pauses (λ usec. usec / 1000) (1 ∷ 99 ∷ [])
      (fresh_thread 1 (record random_reads { burst_delay = 1 })) (refl, refl) refl (omega arith)
      (omega arith)
