-- ===== src/Config/Module/Kobjects.antt =====
-- The kobjects that the initialisation creates and puts back.
use kernel_io.Common.{
  ℕ, ◌≡◌, refl, inl, inr, Option, Option-cases, none, some, List, ◌∷◌, arith, done,
}
use kernel_io.Config.Ledger.{Balanced, Settled, create_files-counts}
use kernel_io.Config.Threads.{create_files, or_put, free_threads}
use kernel_io.Config.Threads.Created.{create_files-frame}
use kernel_io.Config.Threads.Destroy.{destroy_all_threads-none}
use kernel_io.Config.Module.{
  module_attrs, with_module_kobj, kio_config_init, put_module, kio_config_exit,
}
use kernel_io.Kernel.{Event, created, Kernel, Kio, log}
use kernel_io.Kernel.Ledger.{creations, puts, allocations, frees}

-- On failure every kobject has been put as often as created; on success one is kept, of the module.
abbrev pub Initialises : Kio → Option ℕ × Kio → Type 0
Initialises s (some e, s') = Settled s s'
Initialises s (none, s') =
    Balanced s s'
    × (s'.config.num_threads ≡ 0)
    × (s'.config.threads ≡ none)
    × ((k : ℕ) × (s'.kio_kobj ≡ some k))

-- The counts of a trace are those of another, to which the creation of `k` is added.
abbrev AfterCreation : ℕ → List Event → List Event → Type 0
AfterCreation k trace trace' =
    ((j : ℕ) → creations j trace' ≡ creations j (created k ∷ trace))
    × ((j : ℕ) → puts j trace' ≡ puts j trace)
    × (allocations trace' ≡ allocations trace)
    × (frees trace' ≡ frees trace)

or_put-Initialises :
    (k : ℕ) (s : Kio) (r : Option ℕ × Kio)
    → AfterCreation k s.trace r.1.trace
    → r.1.config.num_threads ≡ 0
    → r.1.config.threads ≡ none
    → r.1.kio_kobj ≡ some k
    → Initialises s (or_put k r)
or_put-Initialises k s (some e, s') (c, p, a, f) num null kobj = record {
  kobjects = λ j. ground (arith, c j, p j);
  memory = omega arith;
}
or_put-Initialises k s (none, s') (c, p, a, f) num null kobj = (
  record {
    kobjects = λ j. rw (null, kobj) (ground (arith, c j, p j));
    memory = rw null (omega arith);
  },
  num,
  null,
  (k, kobj),
)

pub kio_config_init-Initialises :
    (kernel : Kernel) (s : Kio) → Initialises s (kio_config_init kernel s)
unfolding kio_config_init
kio_config_init-Initialises kernel s = elim (Option-cases (kernel.kobject_create_and_add s.trace)) [
  | inl null ↦ rw (null, kio_config_init) (record { kobjects = λ j. refl; memory = refl })
  | inr (k, made) ↦
      let s1 = log (created k) (with_module_kobj (some k) s) in
      let frame = create_files-frame kernel k module_attrs s1 in
      rw (made, kio_config_init)
        (or_put-Initialises k s (create_files kernel k module_attrs s1)
          (create_files-counts kernel k module_attrs s1) (ground (arith, frame))
          (ground (arith, frame)) (ground (arith, frame)))
]

-- Right after it, the exit puts the one that was kept.
pub exit_after_init :
    (s s' : Kio)
    → Initialises s (none, s')
    → (s'' : Kio) × (kio_config_exit s' ≡ done s'') × Settled s s''
unfolding kio_config_exit
exit_after_init s s' (v, num, null, (k, kobj)) = (
  put_module (free_threads s'),
  rw (destroy_all_threads-none s' num) refl,
  record {
    kobjects = λ j. ground (arith, v.kobjects j, null, kobj);
    memory = ground (arith, v.memory, null, kobj);
  },
)
