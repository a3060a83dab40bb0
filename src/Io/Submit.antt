-- ===== src/Io/Submit.antt =====
-- `kio_io_submit` and `blk_partition_remap` of driver/kio_io.c, for kernels whose block device
-- holds the first sector of its partition. Warnings are left out.
pub mod Outcomes
use kernel_io.Common.{
  ℕ, ◌+◌, ◌-◌, ◌/◌, ◌^◌, Bool, true, false, not, ◌||◌, Option, none, some, List, [], ◌∷◌, ltb, ◌==◌,
  if◌then◌else◌, Exec, done, fault, ◌>>=◌, load, u64, eio, enomem, efault, einval,
}
use kernel_io.Io.Device.{KioIo, kio_io_offset_is_valid, page_size}

-- What the functions of the block layer return during a submission: whether a bio is allocated, how
-- much of the page `bio_add_page` has added, whether the bio has a disk, and the bio's vector after
-- that; the first sector of the device, if it is a partition; and whether the driver of the disk
-- has a `submit_bio`, which one that takes requests has not.
pub record BlockLayer : Type 0 where
  pub bio_alloc : Bool
  pub bio_add_page : ℕ
  pub bio_has_disk : Bool
  pub bi_vcnt : ℕ
  pub bv_page : Option ℕ
  pub bd_start_sect : Option ℕ
  pub fops_submit_bio : Bool

pub record Bio : Type 0 where
  pub bi_sector : ℕ
  pub page : ℕ
  pub is_write : Bool

-- The three ways to hand a bio over, selected by `kio_io_submit_mode`.
pub data BioEvent : Type 0 where
  allocated put : BioEvent
  submit_bio submit_bio_noacct driver_submit_bio : Bio → BioEvent

-- `off >> SECTOR_SHIFT`, of a signed number
abbrev pub sector_of : ℕ → ℕ
sector_of off = if ltb off (2 ^ 63) then off / 512 else off / 512 + 2 ^ 64 - 2 ^ 55

abbrev pub blk_partition_remap : Option ℕ → Bio → Bio
blk_partition_remap none bio = bio
blk_partition_remap (some start) bio = record bio { bi_sector = u64 (bio.bi_sector + start) }

-- A call of `disk->fops->submit_bio` that is NULL is a fault.
abbrev pub hand_over : (mode : ℕ) → BlockLayer → Bio → Exec BioEvent
hand_over mode layer bio =
    if mode == 1
    then done (submit_bio_noacct bio)
    else if not (mode == 2)
    then done (submit_bio bio)
    else if layer.fops_submit_bio
    then done (driver_submit_bio (blk_partition_remap layer.bd_start_sect bio))
    else fault

abbrev pub is_null : Option ℕ → Bool
is_null none = true
is_null (some _) = false

-- What follows the allocation of the bio: none for 0 or the error, and what has happened to the
-- bio, the latest first.
unfoldable pub fill_bio : (mode : ℕ) → BlockLayer → Bio → Exec (Option ℕ × List BioEvent)
fill_bio mode layer bio =
    if layer.bio_add_page == 0
    then done (some eio, put ∷ allocated ∷ [])
    else if not layer.bio_has_disk
    then done (some eio, put ∷ allocated ∷ [])
    else if layer.bi_vcnt == 0 || is_null layer.bv_page
    then done (some eio, put ∷ allocated ∷ [])
    else (hand_over mode layer bio >>= λ event. done (none, event ∷ allocated ∷ []))

-- `bio_set_dev` reads through the device.
unfoldable pub kio_io_submit :
    KioIo
    → (mode : ℕ) → BlockLayer
    → (off : ℕ) → Option ℕ
    → (is_write : Bool) → Exec (Option ℕ × List BioEvent)
kio_io_submit io mode layer off page is_write = elim page [
  | none ↦ done (some efault, [])
  | some p ↦ kio_io_offset_is_valid io off page_size >>= λ valid.
      if not valid
      then done (some einval, [])
      else if not layer.bio_alloc
      then done (some enomem, [])
      else (load io.bdev >>= λ bdev.
          fill_bio mode layer (record { bi_sector = sector_of off; page = p; is_write = is_write }))
]

-- The page comes first.
abbrev pub kio_io_submit_write :
    KioIo → (mode : ℕ) → BlockLayer → Option ℕ → (off : ℕ) → Exec (Option ℕ × List BioEvent)
kio_io_submit_write io mode layer page off = kio_io_submit io mode layer off page true

abbrev pub kio_io_submit_read :
    KioIo → (mode : ℕ) → BlockLayer → (off : ℕ) → Option ℕ → Exec (Option ℕ × List BioEvent)
kio_io_submit_read io mode layer off page = kio_io_submit io mode layer off page false
