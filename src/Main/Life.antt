-- ===== src/Main/Life.antt =====
-- The life of the module, from its load to its removal.
use kernel_io.Common.{
  ℕ, ◌≡◌, ◌≢◌, ◌⊎◌, inl, inr, refl, sym, true, Option, none, some, List, done, fault, Result,
}
use mathlib.Core.Path.{subst}
use kernel_io.Kernel.{Kernel, Kio}
use kernel_io.Config.Module.{kio_config_init}
use kernel_io.Config.Ledger.{Settled}
use kernel_io.Config.Module.Kobjects.{Initialises, kio_config_init-Initialises, exit_after_init}
use kernel_io.Io.Open.{BlockKernel, Dev, no_device}
use kernel_io.Io.Open.Balance.{
  IsClosed, IsOpen, Opens, Trims, kio_io_init-Opens, kio_io_exit-Closed,
}
use kernel_io.Control.{Outside, Write, store}
use kernel_io.Control.Safety.{Served, Trusted}
use kernel_io.Control.Reached.{Reached, initialised, written, Reached-exit}
use kernel_io.Control.Ledger.{origin, exit-Settled}
use kernel_io.Main.{Module, after_config, after_io, kio_init, kio_exit}

-- The states of a loaded module: after `kio_init` has succeeded, and after any writes to its files,
-- which see the size of the device that is open.
pub data Loaded (block : BlockKernel) : Module → Type 0 where
  loads :
      (kernel : Kernel) (kio_block_device : Option (List ℕ)) (before : Module) {m : Module}
      → kio_init kernel block kio_block_device before ≡ done (none, m)
      → Loaded block m
  writes :
      (o : Outside) (w : Write) (r : Result ℕ) (kio : Kio) {m m' : Module}
      → Trusted o
      → o.dev_size ≡ m.dev.io.dev_byte_size
      → Loaded block m
      → Served w m.kio
      → store o w m.kio ≡ done (r, kio)
      → m' ≡ record m { kio = kio }
      → Loaded block m'

-- What the module was before it was loaded.
abbrev pub loaded_from : {block : BlockKernel} {m : Module} → Loaded block m → Module
loaded_from (loads kernel kio_block_device before run) = before
loaded_from (writes o w r kio trusted size loaded served run same) = loaded_from loaded

-- The parameter `block_device` of the load.
abbrev pub loaded_device : {block : BlockKernel} {m : Module} → Loaded block m → Option (List ℕ)
loaded_device (loads kernel kio_block_device before run) = kio_block_device
loaded_device (writes o w r kio trusted size loaded served run same) = loaded_device loaded

-- What a load can come to: each kobject put as often as created and nothing held; or the device open.
pub data Loads (block : BlockKernel) (before : Module) : Option ℕ × Module → Type 0 where
  failed :
      {r : Option ℕ × Module} (e : ℕ)
      → r.0 ≡ some e
      → IsClosed r.1.dev
      → Settled before.kio r.1.kio
      → Loads block before r
  succeeded :
      {r : Option ℕ × Module}
      → r.0 ≡ none
      → IsOpen block r.1.dev
      → (reached : Reached r.1.kio) → origin reached ≡ before.kio
      → Loads block before r

module _ (block : BlockKernel) where
  after_io-Loads :
      (before : Module) (s : Kio) (q : Option ℕ × Dev)
      → Initialises before.kio (none, s)
      → (reached : Reached s) → origin reached ≡ before.kio
      → Opens block q
      → (r : Option ℕ × Module) × (after_io s q ≡ done r) × Loads block before r
  after_io-Loads before s (none, d) inits reached from opens =
      ((none, record { kio = s; dev = d }), refl, succeeded refl opens reached from)
  after_io-Loads before s (some e, d) inits reached from opens =
      let (s', run, balance) = exit_after_init before.kio s inits in
      ((some e, record { kio = s'; dev = d }), rw run refl, failed e refl opens balance)

  -- The configuration first, with what the device then comes to.
  after_config-Loads :
      (kernel : Kernel) (kio_block_device : Option (List ℕ)) (before : Module) (q : Option ℕ × Kio)
      → block.releases_unset ≡ true
      → IsClosed before.dev
      → ((path : List ℕ) → kio_block_device ≡ some path → Trims block path)
      → Initialises before.kio q
      → kio_config_init kernel before.kio ≡ q
      → (r : Option ℕ × Module) × (after_config block kio_block_device before.dev q ≡ done r)
        × Loads block before r
  after_config-Loads kernel kio_block_device before (some e, s) unset closed trims inits run =
      ((some e, record before { kio = s }), refl, failed e refl closed inits)
  after_config-Loads kernel kio_block_device before (none, s) unset closed trims inits run =
      let (q, opening, opens) =
        kio_io_init-Opens block unset before.dev closed kio_block_device trims in
      let (r, after, outcome) =
        after_io-Loads before s q inits (initialised kernel before.kio run) refl opens in
      (r, rw opening after, outcome)

  -- If a set of bios may be released that was never set up, and strim returns the start of the
  -- copy that kstrdup made, then from nothing held kio_init returns, on every path: with an
  -- error, with no name, device or set of bios held, each released exactly as it was acquired,
  -- and with each kobject put as often as created; or with success, a device of at least 1 GiB
  -- open and recorded in kio_io, and the configuration initialised.
  pub kio_init-Loads :
      (kernel : Kernel) (kio_block_device : Option (List ℕ)) (before : Module)
      → block.releases_unset ≡ true
      → IsClosed before.dev
      → ((path : List ℕ) → kio_block_device ≡ some path → Trims block path)
      → (r : Option ℕ × Module) × (kio_init kernel block kio_block_device before ≡ done r)
        × Loads block before r
  unfolding kio_init
  kio_init-Loads kernel kio_block_device before unset closed trims =
      after_config-Loads kernel kio_block_device before (kio_config_init kernel before.kio) unset
        closed trims (kio_config_init-Initialises kernel before.kio) refl

  module _ (unset : block.releases_unset ≡ true) where
    -- The device is open, and the configuration has come from where the module was loaded.
    abbrev OpenFrom : Kio → Module → Type 0
    OpenFrom b m = (reached : Reached m.kio) × (origin reached ≡ b) × IsOpen block m.dev

    Loads-Open :
        (before : Module) (r : Option ℕ × Module) (m : Module)
        → r ≡ (none, m)
        → Loads block before r
        → OpenFrom before.kio m
    Loads-Open before r m e (failed n bad closed balance) = absurd (cc)
    Loads-Open before r m e (succeeded good opens reached from) =
        subst (λ q. OpenFrom before.kio q.1) e (reached, from, opens)

    pub Loaded-Open :
        (m : Module) (loaded : Loaded block m)
        → IsClosed (loaded_from loaded).dev
        → ((path : List ℕ) → loaded_device loaded ≡ some path → Trims block path)
        → OpenFrom (loaded_from loaded).kio m
    Loaded-Open m (loads kernel kio_block_device before run) closed trims =
        let (r, run', outcome) = kio_init-Loads kernel kio_block_device before unset closed trims in
        Loads-Open before r m (cc) outcome
    Loaded-Open m' (writes o w r kio {m} trusted size loaded served run same) closed trims =
        let (reached, from, opens) = Loaded-Open m loaded closed trims in
        subst (OpenFrom (loaded_from loaded).kio) (sym same)
          (written o w r trusted reached served run, from, opens)

    -- If a set of bios may be released that was never set up, nothing was held before the load,
    -- and strim returned the start of the copy that kstrdup made of block_device: in every state
    -- that a loaded module reaches by writes to its files, kio_exit returns with the name, the
    -- device and the set of bios released, kio_io zeroed, no threads allocated, and, since before
    -- the load, each kobject put as often as created and the memory of the threads freed as often
    -- as allocated; or num_threads is not zero while no threads are allocated, and it faults.
    -- Conditions of the writes: sscanf and kstrtol return numbers of their types, the size of the
    -- device is the open one's and a 64-bit number, every kthread_run succeeds and every
    -- kthread_stop returns, and the file of a variable is written to only while threads are
    -- allocated.
    pub kio_exit-Closed :
        (m : Module) (loaded : Loaded block m)
        → IsClosed (loaded_from loaded).dev
        → ((path : List ℕ) → loaded_device loaded ≡ some path → Trims block path)
        → ((m' : Module) × (kio_exit block m ≡ done m')
            × IsClosed m'.dev
            × (m'.dev.io ≡ no_device)
            × (m'.kio.config.threads ≡ none)
            × Settled (loaded_from loaded).kio m'.kio)
          ⊎ ((m.kio.config.threads ≡ none)
              × (m.kio.config.num_threads ≢ 0)
              × (kio_exit block m ≡ fault))
    unfolding kio_exit
    kio_exit-Closed m loaded nothing_held trims =
        let (reached, from, opens) = Loaded-Open m loaded nothing_held trims in
        let (d, closing, closed, zeroed) = kio_io_exit-Closed block m.dev opens in
        elim (Reached-exit m.kio reached) [
          | inl (s, exits, null) ↦
              let settled = subst (λ b. Settled b s) from (exit-Settled m.kio s reached exits) in
              inl (
                record { kio = s; dev = d },
                rw (closing, exits) refl,
                closed,
                zeroed,
                null,
                settled,
              )
          | inr (null, num, faults) ↦ inr (null, num, rw (closing, faults) refl)
        ]
