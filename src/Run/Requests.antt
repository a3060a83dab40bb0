-- ===== src/Run/Requests.antt =====
-- The requests that `kio_thread_fn` makes, one after another: a direction and an offset for each.
pub mod Safety
pub mod Frames
use kernel_io.Common.{ℕ, Bool, List, [], ◌∷◌}
use kernel_io.Io.Device.{KioIo}
use kernel_io.Run.Thread.{KioThread}
use kernel_io.Run.Dir.{Dir, kio_thread_next_dir}
use kernel_io.Run.Offset.{kio_thread_next_offset}

-- The random numbers that one request may draw.
pub record Draw : Type 0 where
  pub dir : ℕ
  pub lo : ℕ
  pub hi : ℕ

pub record Request : Type 0 where
  pub dir : Dir
  pub offset : ℕ

-- `dir = kio_thread_next_dir(th); offset = kio_thread_next_offset(th);`
unfoldable pub next_request : KioIo → Draw → KioThread → Request × KioThread
next_request io draw th =
    let (dir, th') = kio_thread_next_dir draw.dir th in
    let (offset, th'') = kio_thread_next_offset io draw.lo draw.hi th' in
    (record { dir = dir; offset = offset }, th'')

pub requests : KioIo → List Draw → KioThread → List Request
requests io [] th = []
requests io (draw ∷ draws) th =
    let (request, th') = next_request io draw th in request ∷ requests io draws th'
