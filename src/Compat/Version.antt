-- ===== src/Compat/Version.antt =====
-- The choices that driver/kio_compat.h makes by the kernel's version for the submission of a bio,
-- and what driver/kio_io.c then reads of the bio. `KERNEL_VERSION` of the kernel's own header is a
-- parameter, `code` is LINUX_VERSION_CODE.
pub mod Fields
use kernel_io.Common.{ℕ, Bool, not, List, [], ◌∷◌, ◌++◌, ltb, leb, if◌then◌else◌}

-- The field of a bio that leads to its device.
pub data BioField : Type 0 where
  bi_bdev bi_disk : BioField

module _ (kernel_version : ℕ → ℕ → ℕ → ℕ) (code : ℕ) where
  -- What `bio_has_disk` reads.
  pub field_of_bio_has_disk : BioField
  field_of_bio_has_disk =
      if leb (kernel_version 5 12 0) code
      then bi_bdev
      else if leb (kernel_version 4 13 0) code
      then bi_disk
      else bi_bdev

  -- BDEV_HAS_BD_PART
  abbrev pub bdev_has_bd_part : Bool
  bdev_has_bd_part = ltb code (kernel_version 5 11 0)

  -- GENDISK_HAS_SUBMIT_BIO
  abbrev pub gendisk_has_submit_bio : Bool
  gendisk_has_submit_bio = not (ltb code (kernel_version 5 9 0))

  -- What `blk_partition_remap` reads.
  pub fields_of_remap : List BioField
  fields_of_remap = if bdev_has_bd_part then bi_disk ∷ [] else []

  -- What the third way to submit reads, the remap included.
  pub fields_of_submit : List BioField
  fields_of_submit = (if gendisk_has_submit_bio then bi_bdev ∷ [] else []) ++ fields_of_remap
