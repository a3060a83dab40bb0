-- ===== src/Io.antt =====
-- The block device: driver/kio_io.h and driver/kio_io.c.
pub mod Device
pub mod Submit
pub mod Open
pub mod Partition
