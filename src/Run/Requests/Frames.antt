-- ===== src/Run/Requests/Frames.antt =====
-- The requests of a thread do not depend on how many it has completed.
use kernel_io.Common.{ℕ, ◌≡◌, arith}
use kernel_io.Io.Device.{KioIo}
use kernel_io.Run.Thread.{KioThread}
use kernel_io.Run.Dir.{kio_thread_next_dir}
use kernel_io.Run.Offset.{kio_thread_next_offset, advance, pick}
use kernel_io.Run.Requests.{Draw, next_request}

abbrev pub with_completed : ℕ → KioThread → KioThread
with_completed c th = record th { completed = c }

next_dir_completed :
    (r c : ℕ) (th : KioThread)
    → kio_thread_next_dir r (with_completed c th)
      ≡ ((kio_thread_next_dir r th).0, with_completed c (kio_thread_next_dir r th).1)
unfolding kio_thread_next_dir
next_dir_completed r c th = ground arith

next_offset_completed :
    (io : KioIo) (lo hi c : ℕ) (th : KioThread)
    → kio_thread_next_offset io lo hi (with_completed c th) ≡ (
      (kio_thread_next_offset io lo hi th).0,
      with_completed c (kio_thread_next_offset io lo hi th).1,
    )
unfolding kio_thread_next_offset advance pick
next_offset_completed io lo hi c th = ground arith

pub next_request_completed :
    (io : KioIo) (d : Draw) (c : ℕ) (th : KioThread)
    → next_request io d (with_completed c th)
      ≡ ((next_request io d th).0, with_completed c (next_request io d th).1)
unfolding next_request
next_request_completed io d c th =
    let th' = (kio_thread_next_dir d.dir th).1 in
    ground (arith, next_dir_completed d.dir c th, next_offset_completed io d.lo d.hi c th')

-- A request leaves the totals alone.
pub next_request_counts :
    (io : KioIo) (d : Draw) (th : KioThread)
    → ((next_request io d th).1.completed ≡ th.completed)
      × ((next_request io d th).1.slat_total ≡ th.slat_total)
      × ((next_request io d th).1.clat_total ≡ th.clat_total)
unfolding next_request kio_thread_next_dir kio_thread_next_offset
next_request_counts io d th = (ground arith, ground arith, ground arith)
