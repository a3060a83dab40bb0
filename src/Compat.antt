-- ===== src/Compat.antt =====
-- driver/kio_compat.h: what the driver supplies for kernels that lack it.
pub mod Random
pub mod Version
