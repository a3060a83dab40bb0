-- ===== src/Run/System/Submissions.antt =====
-- From a configuration that is validated to what the threads of its run hand to the block layer.
use kernel_io.Common.{
  ℕ, ◌%◌, ◌^◌, ◌<◌, ◌≡◌, ◌⊎◌, Bool, true, some, List, [], All, All-get_elem?, get_elem?, done,
  enomem,
}
use kernel_io.Config.Types.{KioThreadConfig, KioConfig, IsAllocated}
use kernel_io.Config.Valid.{kio_config_is_valid}
use kernel_io.Io.Device.{KioIo, kio_io_dev_byte_size}
use kernel_io.Io.Submit.{BlockLayer, kio_io_submit}
use kernel_io.Io.Submit.Outcomes.{ComesTo, Filled, kio_io_submit_valid}
use kernel_io.Run.Requests.{Request}
use kernel_io.Run.Requests.Safety.{validated-Runnable}
use kernel_io.Run.Loop.{submit, LoopState}
use kernel_io.Run.Loop.Requests.{submitted-Sent}
use kernel_io.Run.Session.Outcomes.{OnePage}
use kernel_io.Run.System.{System, SystemReach}
use kernel_io.Run.System.Threads.{SystemReach-Reach}

-- If kio_config_is_valid accepts an allocated configuration for the device's size and leaves
-- every thread with a block size of one page, then in every state of a run with its threads all
-- going on an open device, and whatever the block layer returns, kio_io_submit comes to one of
-- four things on the request that a thread is about to submit with a page: ENOMEM without a bio;
-- EIO with the bio put back; success with the bio handed over once, for that page and direction,
-- its sector being exactly the offset of the request before a remap, and the page being wholly on
-- the device; or a fault, in mode 2 alone, on a disk whose driver has no submit_bio. Conditions:
-- the device's size is a 64-bit number and its block size a multiple of 512 and not zero.
pub run_submissions :
    (is_power_of_2 : ℕ → Bool) (cpus : ℕ) (io : KioIo) (c c' : KioConfig)
    (ths ths' : List KioThreadConfig) (s : System) (i : ℕ) (l : LoopState) (q : Request) (mode : ℕ)
    (layer : BlockLayer) (page bdev : ℕ)
    → kio_io_dev_byte_size io < 2 ^ 64
    → 0 < io.dev_block_size
    → io.dev_block_size % 512 ≡ 0
    → io.bdev ≡ some bdev
    → IsAllocated c ths
    → kio_config_is_valid is_power_of_2 (kio_io_dev_byte_size io) cpus c ≡ done (true, c')
    → c'.threads ≡ some ths'
    → All OnePage ths'
    → SystemReach io ths' s
    → get_elem? s.loops i ≡ some l
    → l.pc ≡ submit q
    → ComesTo mode layer
        (kio_io_submit io mode layer q.offset (some page) q.dir.is_write)
        (λ r. (r ≡ (some enomem, [])) ⊎ Filled io mode layer q.offset page q.dir.is_write r)
unfolding kio_io_dev_byte_size
run_submissions p cpus io c c' ths ths' s i l q mode layer page bdev fits blocks sectors there a e
      at_threads pages run at_i at =
    let (t, at_t, r) = SystemReach-Reach io ths' run i l at_i in
    let one_page = All-get_elem? OnePage ths' i pages at_t in
    let runnable =
      validated-Runnable p cpus io c c' ths ths' i t fits a e at_threads at_t one_page in
    let (accepted, small) = submitted-Sent blocks runnable q r at in
    kio_io_submit_valid io mode layer blocks sectors bdev there q.offset small page q.dir.is_write
      accepted
