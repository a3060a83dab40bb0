-- ===== src/Main.antt =====
-- driver/kio_main.c: the module is loaded and removed.
pub mod Life
pub mod Unload
use kernel_io.Common.{ℕ, Option, none, some, List, Exec, done, ◌>>=◌}
use kernel_io.Kernel.{Kernel, Kio}
use kernel_io.Config.Module.{kio_config_init, kio_config_exit}
use kernel_io.Io.Open.{BlockKernel, Dev, kio_io_init, kio_io_exit}

-- The variables of driver/kio_config.c and driver/kio_run.c, and those of driver/kio_io.c.
pub record Module : Type 0 where
  pub kio : Kio
  pub dev : Dev

-- What follows the two initialisations: the label `err_io`.
abbrev pub after_io : Kio → Option ℕ × Dev → Exec (Option ℕ × Module)
after_io s (none, d) = done (none, record { kio = s; dev = d })
after_io s (some e, d) = kio_config_exit s >>= λ s'. done (some e, record { kio = s'; dev = d })

-- What follows `kio_config_init`.
abbrev pub after_config :
    BlockKernel
    → (kio_block_device : Option (List ℕ)) → Dev
    → Option ℕ × Kio
    → Exec (Option ℕ × Module)
after_config block kio_block_device d (some e, s) = done (some e, record { kio = s; dev = d })
after_config block kio_block_device d (none, s) =
    kio_io_init block kio_block_device d >>= after_io s

-- None for 0, otherwise the error.
unfoldable pub kio_init :
    Kernel → BlockKernel → (kio_block_device : Option (List ℕ)) → Module → Exec (Option ℕ × Module)
kio_init kernel block kio_block_device m =
    after_config block kio_block_device m.dev (kio_config_init kernel m.kio)

pub kio_exit : BlockKernel → Module → Exec Module
kio_exit block m = kio_io_exit block m.dev >>= λ d.
    kio_config_exit m.kio >>= λ s. done (record { kio = s; dev = d })
