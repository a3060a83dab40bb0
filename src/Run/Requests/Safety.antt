-- ===== src/Run/Requests/Safety.antt =====
-- From a configuration that `kio_config_is_valid` accepts to the offsets of a run.
use kernel_io.Common.{
  ℕ, ◌^◌, ◌<◌, ◌≡◌, ◌∙◌, ap, Bool, true, List, [], ◌∷◌, some, arith, done, All, All-get_elem?,
  get_elem?,
}
use mathlib.Core.List.{map}
use kernel_io.Config.Types.{KioThreadConfig, KioConfig, IsAllocated}
use kernel_io.Config.Valid.{kio_config_is_valid}
use kernel_io.Config.Valid.Thread.{Acceptable, capped}
use kernel_io.Config.Valid.Verdict.{kio_config_is_valid_iff}
use kernel_io.Io.Device.{KioIo, page_size, kio_io_dev_byte_size, kio_io_offset_is_valid}
use kernel_io.Run.Thread.{KioThread, fresh_thread}
use kernel_io.Run.Dir.{kio_thread_next_dir}
use kernel_io.Run.Dir.Bursts.{next_dir_frame}
use kernel_io.Run.Offset.OnDevice.{
  next_offset_frame, Runnable, OnDevice, kio_thread_next_offset-Addressable,
  kio_io_offset_is_valid-next_offset,
}
use kernel_io.Run.Requests.{Draw, Request, next_request, requests}

pub next_request-OnDevice :
    (io : KioIo) (d : Draw) (th : KioThread)
    → 0 < io.dev_block_size
    → Runnable io.dev_byte_size th.config
    → OnDevice io.dev_byte_size th
    → (kio_io_offset_is_valid io (next_request io d th).0.offset page_size ≡ done true)
      × OnDevice io.dev_byte_size (next_request io d th).1
      × ((next_request io d th).1.config ≡ th.config)
unfolding next_request
next_request-OnDevice io d th blocks r o =
    let (same, still, _) = next_dir_frame d.dir th in
    let th' = (kio_thread_next_dir d.dir th).1 in
    let r' : Runnable io.dev_byte_size th'.config = rw same r in
    let o' : OnDevice io.dev_byte_size th' = omega arith in
    let a = kio_thread_next_offset-Addressable io blocks d.lo d.hi th' r' o' in
    (kio_io_offset_is_valid-next_offset io blocks d.lo d.hi th' r' o', a.1, a.2 ∙ same)

-- As a signed number its offset is not negative.
pub next_request-nonneg :
    (io : KioIo) (d : Draw) (th : KioThread)
    → 0 < io.dev_block_size
    → Runnable io.dev_byte_size th.config
    → OnDevice io.dev_byte_size th
    → (next_request io d th).0.offset < 2 ^ 63
unfolding next_request
next_request-nonneg io d th blocks r o =
    let (same, still, _) = next_dir_frame d.dir th in
    let th' = (kio_thread_next_dir d.dir th).1 in
    let r' : Runnable io.dev_byte_size th'.config = rw same r in
    let o' : OnDevice io.dev_byte_size th' = omega arith in
    (kio_thread_next_offset-Addressable io blocks d.lo d.hi th' r' o').0.2

-- A request leaves the configuration and the count of requests alone.
pub next_request_frame :
    (io : KioIo) (d : Draw) (th : KioThread)
    → ((next_request io d th).1.config ≡ th.config)
      × ((next_request io d th).1.dispatched ≡ th.dispatched)
unfolding next_request
next_request_frame io d th =
    let (same, _, counted) = next_dir_frame d.dir th in
    let frame = next_offset_frame io d.lo d.hi (kio_thread_next_dir d.dir th).1 in
    (ap (λ u. u.config) frame ∙ same, ap (λ u. u.dispatched) frame ∙ counted)

abbrev pub AcceptedBy : KioIo → Request → Type 0
AcceptedBy io q = kio_io_offset_is_valid io q.offset page_size ≡ done true

requests-AcceptedBy :
    (io : KioIo) (draws : List Draw) (th : KioThread)
    → 0 < io.dev_block_size
    → Runnable io.dev_byte_size th.config
    → OnDevice io.dev_byte_size th
    → All (AcceptedBy io) (requests io draws th)
unfolding requests
requests-AcceptedBy io [] th blocks r o = tt
requests-AcceptedBy io (d ∷ draws) th blocks r o =
    let (valid, o', same) = next_request-OnDevice io d th blocks r o in
    (valid, requests-AcceptedBy io draws (next_request io d th).1 blocks (rw same r) o')

-- What validation leaves can be run, if the block size is the one that `kio_run` insists on.
capped-Runnable :
    (is_power_of_2 : ℕ → Bool) (dev_size : ℕ) (t : KioThreadConfig)
    → Acceptable is_power_of_2 dev_size t
    → t.block_size ≡ page_size
    → Runnable dev_size (capped dev_size t)
capped-Runnable p dev_size t a e = omega arith

All-Runnable :
    (is_power_of_2 : ℕ → Bool) (dev_size : ℕ) (ths : List KioThreadConfig)
    → All (Acceptable is_power_of_2 dev_size) ths
    → All (λ t. t.block_size ≡ page_size → Runnable dev_size t) (map (capped dev_size) ths)
All-Runnable p dev_size [] a = tt
All-Runnable p dev_size (t ∷ ts) a =
    (capped-Runnable p dev_size t a.0, All-Runnable p dev_size ts a.1)

pub fresh-OnDevice :
    (dev_size i : ℕ) (t : KioThreadConfig)
    → Runnable dev_size t
    → OnDevice dev_size (fresh_thread i t)
fresh-OnDevice dev_size i t r = omega arith

-- A thread of what validation leaves can be run.
pub validated-Runnable :
    (is_power_of_2 : ℕ → Bool) (cpus : ℕ) (io : KioIo) (c c' : KioConfig)
    (ths ths' : List KioThreadConfig) (i : ℕ) (t : KioThreadConfig)
    → kio_io_dev_byte_size io < 2 ^ 64
    → IsAllocated c ths
    → kio_config_is_valid is_power_of_2 (kio_io_dev_byte_size io) cpus c ≡ done (true, c')
    → c'.threads ≡ some ths'
    → get_elem? ths' i ≡ some t
    → t.block_size ≡ page_size
    → Runnable (kio_io_dev_byte_size io) t
unfolding kio_io_dev_byte_size
validated-Runnable p cpus io c c' ths ths' i t fits a e at_threads at_i page =
    let (ok, left) = (kio_config_is_valid_iff p io.dev_byte_size cpus fits c ths a c').0 e in
    let capped_ths : ths' ≡ map (capped io.dev_byte_size) ths = ground arith in
    All-get_elem? _ _ i (All-Runnable p io.dev_byte_size ths ok.each) (rw capped_ths at at_i) page

-- If kio_config_is_valid accepts an allocated configuration for the device's size, and a thread
-- of what it leaves has the block size of one page, then every request of that thread, from its
-- start and for any random numbers, has an offset that kio_io_offset_is_valid accepts for a page,
-- provided that the device's block size is not zero and its size is a 64-bit number.
pub validated_requests :
    (is_power_of_2 : ℕ → Bool) (cpus : ℕ) (io : KioIo) (c c' : KioConfig)
    (ths ths' : List KioThreadConfig) (i : ℕ) (t : KioThreadConfig) (draws : List Draw)
    → kio_io_dev_byte_size io < 2 ^ 64
    → 0 < io.dev_block_size
    → IsAllocated c ths
    → kio_config_is_valid is_power_of_2 (kio_io_dev_byte_size io) cpus c ≡ done (true, c')
    → c'.threads ≡ some ths'
    → get_elem? ths' i ≡ some t
    → t.block_size ≡ page_size
    → All (AcceptedBy io) (requests io draws (fresh_thread i t))
unfolding kio_io_dev_byte_size
validated_requests p cpus io c c' ths ths' i t draws fits blocks a e at_threads at_i page =
    let runnable = validated-Runnable p cpus io c c' ths ths' i t fits a e at_threads at_i page in
    requests-AcceptedBy io draws (fresh_thread i t) blocks runnable
      (fresh-OnDevice io.dev_byte_size i t runnable)
