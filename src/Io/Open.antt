-- ===== src/Io/Open.antt =====
-- `kio_io_init` and `kio_io_exit` of driver/kio_io.c: open the device and close it. Warnings are
-- left out.
pub mod Ledger
pub mod Balance
use kernel_io.Common.{
  ℕ, ◌^◌, Bool, true, false, ◌||◌, Option, none, some, List, ◌∷◌, ltb, if◌then◌else◌, Exec, done,
  fault, ◌>>=◌, load, einval, enodev, enomem, etoosmall,
}
use kernel_io.Io.Device.{Name, KioIo}

-- What the module has acquired and released, the latest first. A name is given back at the pointer
-- that `strim` returned, which lies that many bytes behind the one that was allocated; a set of
-- bios may be released that was not set up.
pub data DevEvent : Type 0 where
  duplicated : DevEvent
  freed_name : (skipped : ℕ) → DevEvent
  opened : (bdev : ℕ) → DevEvent
  closed : (bdev : ℕ) → DevEvent
  bio_set_up : DevEvent
  bio_set_released : DevEvent

-- `blkdev_get_by_path` returns NULL, an error pointer or a device.
pub data Opened : Type 0 where
  null : Opened
  err_ptr : ℕ → Opened
  device : ℕ → Opened

-- The set of bios is set up by `bioset_init`, with an error or none, or by `bioset_create`, which
-- returns memory or NULL, as the version of the kernel has it.
pub data BioSetup : Type 0 where
  bioset_init : Option ℕ → BioSetup
  bioset_create : Bool → BioSetup

-- `kstrdup` returns memory or NULL; `logical_block_size` is that of the device's queue, if it has
-- a disk and that a queue; `set_blocksize` returns none for 0 or an error; and `releases_unset`
-- says that a set of bios may be released that was never set up.
pub record BlockKernel : Type 0 where
  pub kstrdup : List ℕ → Option (List ℕ)
  pub strim : Option (List ℕ) → Exec (Option Name)
  pub blkdev_get_by_path : List ℕ → Opened
  pub logical_block_size : ℕ → Option ℕ
  pub set_blocksize : ℕ → Option ℕ
  pub i_size_read : ℕ → ℕ
  pub bio_setup : BioSetup
  pub releases_unset : Bool

-- `kio_io`, and the trace.
pub record Dev : Type 0 where
  pub io : KioIo
  pub events : List DevEvent

abbrev pub note : DevEvent → Dev → Dev
note e d = record d { events = e ∷ d.events }

abbrev pub min_byte_size : ℕ
min_byte_size = 2 ^ 30

-- The label `err_release_dev_name`.
abbrev pub release_dev_name : Name → ℕ → Dev → Option ℕ × Dev
release_dev_name name e d = (some e, note (freed_name name.skipped) d)

-- The labels `err_no_queue` and `err_bio_set_init`.
abbrev pub put_bdev : Name → (bdev : ℕ) → ℕ → Dev → Option ℕ × Dev
put_bdev name bdev e d = release_dev_name name e (note (closed bdev) d)

-- `bioset_exit` or `bioset_free` of `kio_io.bio_set`
abbrev pub release_bio_set : BlockKernel → Dev → Exec Dev
release_bio_set kernel d =
    if d.io.bio_set || kernel.releases_unset
    then done (record (note bio_set_released d) { io = record d.io { bio_set = false } })
    else fault

-- The label `err_put_back_bd`.
abbrev pub put_back_bd : BlockKernel → Name → (bdev : ℕ) → ℕ → Dev → Exec (Option ℕ × Dev)
put_back_bd kernel name bdev e d = release_bio_set kernel d >>= λ d'. done (put_bdev name bdev e d')

abbrev pub setup_error : BioSetup → Option ℕ
setup_error (bioset_init e) = e
setup_error (bioset_create true) = none
setup_error (bioset_create false) = some enomem

abbrev pub finalize : Name → (bdev byte_size block_size : ℕ) → Dev → Dev
finalize name bdev byte_size block_size d = record (note bio_set_up d) {
  io = record {
    dev_name = some name;
    bdev = some bdev;
    dev_byte_size = byte_size;
    dev_block_size = block_size;
    bio_set = true;
  };
}

-- What follows the test of the size.
unfoldable pub set_up_bios : BlockKernel → Name → (bdev block_size : ℕ) → Dev → Option ℕ × Dev
set_up_bios kernel name bdev block_size d = elim (setup_error kernel.bio_setup) [
  | some e ↦ put_bdev name bdev e d
  | none ↦ (none, finalize name bdev (kernel.i_size_read bdev) block_size d)
]

-- What follows the test of the queue.
unfoldable pub check_device :
    BlockKernel → Name → (bdev block_size : ℕ) → Dev → Exec (Option ℕ × Dev)
check_device kernel name bdev block_size d = elim (kernel.set_blocksize bdev) [
  | some e ↦ put_back_bd kernel name bdev e d
  | none ↦
      if ltb (kernel.i_size_read bdev) min_byte_size
      then put_back_bd kernel name bdev etoosmall d
      else done (set_up_bios kernel name bdev block_size d)
]

-- What follows the test of the name.
unfoldable pub open_device : BlockKernel → Name → Dev → Exec (Option ℕ × Dev)
open_device kernel name d = elim (kernel.blkdev_get_by_path name.text) [
  | null ↦ done (release_dev_name name enodev d)
  | err_ptr e ↦ done (release_dev_name name e d)
  | device bdev ↦
      let d' = note (opened bdev) d in
      elim (kernel.logical_block_size bdev) [
        | none ↦ done (put_bdev name bdev enodev d')
        | some block_size ↦ check_device kernel name bdev block_size d'
      ]
]

abbrev pub noted_copy : Option (List ℕ) → Dev → Dev
noted_copy none d = d
noted_copy (some _) d = note duplicated d

-- None for 0, otherwise the error.
unfoldable pub kio_io_init :
    BlockKernel → (kio_block_device : Option (List ℕ)) → Dev → Exec (Option ℕ × Dev)
kio_io_init kernel kio_block_device d = elim kio_block_device [
  | none ↦ done (some einval, d)
  | some path ↦
      let copy = kernel.kstrdup path in
      kernel.strim copy >>= λ trimmed. elim trimmed [
        | none ↦ done (some enomem, noted_copy copy d)
        | some name ↦ open_device kernel name (noted_copy copy d)
      ]
]

-- `kfree` of the name, which does nothing to NULL.
abbrev pub free_name : Option Name → Dev → Dev
free_name none d = d
free_name (some name) d = note (freed_name name.skipped) d

-- `memset(&kio_io, 0, sizeof(kio_io))`
abbrev pub no_device : KioIo
no_device = record {
  dev_name = none;
  bdev = none;
  dev_byte_size = 0;
  dev_block_size = 0;
  bio_set = false;
}

-- `blkdev_put` reads through its argument.
unfoldable pub kio_io_exit : BlockKernel → Dev → Exec Dev
kio_io_exit kernel d = release_bio_set kernel d >>= λ d1. load d1.io.bdev >>= λ bdev.
    done (record (note (closed bdev) (free_name d1.io.dev_name d1)) { io = no_device })
