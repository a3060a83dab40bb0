-- ===== src/Config.antt =====
-- The configuration: driver/kio_config.h and driver/kio_config.c.
pub mod Types
pub mod Valid
pub mod Vars
pub mod Threads
pub mod Ledger
pub mod Module
