-- ===== src/Io/Partition.antt =====
-- `kio_disk_get_part` and `blk_partition_remap` of driver/kio_io.c for kernels before 5.11, where a
-- bio names its disk and the number of its partition, with `bio_set_dev` and `bdev_whole` of
-- driver/kio_compat.h.
pub mod Remap
use kernel_io.Common.{
  ℕ, ◌+◌, Bool, not, ◌||◌, Option, none, some, ◌==◌, if◌then◌else◌, Exec, done, fault, ◌>>=◌, slt32,
  u64,
}

-- `struct disk_part_tbl`: its length, and the entries, each NULL or a partition of which only the
-- first sector matters. An entry at or behind the length is not mapped.
pub record PartTable : Type 0 where
  pub len : ℕ
  pub part : ℕ → Option ℕ

-- A block device: its partition's number, and the device that contains it.
pub record BlockDevice : Type 0 where
  pub index : ℕ
  pub bd_partno : ℕ
  pub bd_contains : ℕ

pub record DiskBio : Type 0 where
  pub bi_partno : ℕ
  pub bi_sector : ℕ

-- The part of `bio_set_dev` that is read again.
abbrev pub bio_set_dev : DiskBio → BlockDevice → DiskBio
bio_set_dev bio bdev = record bio { bi_partno = bdev.bd_partno }

abbrev pub bdev_whole : BlockDevice → ℕ
bdev_whole bdev = bdev.bd_contains

-- A read of the table.
abbrev pub entry : PartTable → ℕ → Exec (Option ℕ)
entry table n = if slt32 n table.len then done (table.part n) else fault

pub kio_disk_get_part : PartTable → (partno : ℕ) → Exec (Option ℕ)
kio_disk_get_part table partno =
    if slt32 partno 0 || not (slt32 partno table.len) then done none else entry table partno

abbrev pub add_start : DiskBio → Option ℕ → DiskBio
add_start bio none = bio
add_start bio (some start_sect) = record {
  bi_partno = 0;
  bi_sector = u64 (bio.bi_sector + start_sect);
}

pub remap_by_table : PartTable → BlockDevice → DiskBio → Exec DiskBio
remap_by_table table bdev bio =
    if bdev.index == bdev_whole bdev
    then done bio
    else if not (bio.bi_partno == 0)
    then done bio
    else (kio_disk_get_part table bio.bi_partno >>= λ p. done (add_start bio p))
