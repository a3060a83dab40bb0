-- ===== src/Io/Partition/Remap.antt =====
-- What the remap by the table of partitions does to a bio.
use kernel_io.Common.{
  ℕ, ◌+◌, ◌≡◌, ◌≢◌, Bool-cases, inl, inr, ◌⊎◌, ◌==◌, true, some, Option-cases, arith, done, slt32,
  u64,
}
use kernel_io.Io.Partition.{
  PartTable, BlockDevice, DiskBio, bdev_whole, kio_disk_get_part, remap_by_table,
}

-- The table has an entry of this number, and it starts at that sector.
abbrev pub Listed : PartTable → (partno start_sect : ℕ) → Type 0
Listed table partno start_sect =
    (slt32 partno table.len ≡ true) × (table.part partno ≡ some start_sect)

-- The remap never faults. It leaves a bio as it is, or, for a partition's device and a bio that
-- names no partition, adds the first sector of entry 0: never that of a partition.
pub remap_by_table-cases :
    (table : PartTable) (bdev : BlockDevice) (bio : DiskBio)
    → (remap_by_table table bdev bio ≡ done bio)
      ⊎ ((start_sect : ℕ) × (bdev.index ≢ bdev_whole bdev)
          × (bio.bi_partno ≡ 0)
          × Listed table 0 start_sect
          × (remap_by_table table bdev bio
              ≡ done (record { bi_partno = 0; bi_sector = u64 (bio.bi_sector + start_sect) })))
unfolding remap_by_table kio_disk_get_part
remap_by_table-cases table bdev bio = elim (Bool-cases (bdev.index == bdev_whole bdev)) [
  | inl whole ↦ inl (ground arith)
  | inr part ↦ elim (Bool-cases (bio.bi_partno == 0)) [
    | inr bound ↦ inl (ground arith)
    | inl free ↦ elim (Bool-cases (slt32 0 table.len)) [
      | inr short ↦ inl (ground arith)
      | inl long ↦ elim (Option-cases (table.part 0)) [
        | inl nothing ↦ inl (ground arith)
        | inr (start_sect, there) ↦
            inr (start_sect, ground arith, ground arith, (long, there), ground arith)
      ]
    ]
  ]
]
