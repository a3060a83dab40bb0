-- ===== src/Control/Reached.antt =====
-- From the initialisation of the module to its exit, with any writes between them.
use kernel_io.Common.{
  ℕ, ◌≡◌, ◌≢◌, ◌↔◌, ◌⊎◌, inl, inr, ap, refl, none, some, Option-cases, List, arith, done, fault,
  ◌>>=◌, Result,
}
use mathlib.Core.Path.{subst}
use native.Mathlib.Decide.{ℕ_discrete}
use kernel_io.Config.Types.{KioThreadConfig, IsAllocated}
use kernel_io.Config.Threads.{free_threads}
use kernel_io.Config.Threads.Created.{create_files-frame}
use kernel_io.Config.Threads.Destroy.{
  destroy_all_threads-eq, destroy_all_threads-none, destroy_all_threads-fault,
}
use kernel_io.Config.Module.{
  module_attrs, with_module_kobj, kio_config_init, put_module, kio_config_exit,
}
use kernel_io.Kernel.{created, Kernel, Kio, log}
use kernel_io.Control.{Outside, Write, store}
use kernel_io.Control.Safety.{WellFormed, Served, Trusted, store-WellFormed}

-- The states that a module can come to: initialised, then written to, the world outside being
-- another at each write.
pub data Reached : Kio → Type 0 where
  initialised :
      (kernel : Kernel) (before : Kio) {s : Kio}
      → kio_config_init kernel before ≡ (none, s)
      → Reached s
  written :
      (o : Outside) (w : Write) {s s' : Kio} (r : Result ℕ)
      → Trusted o
      → Reached s
      → Served w s
      → store o w s ≡ done (r, s')
      → Reached s'

init_threads :
    (kernel : Kernel) (before s : Kio)
    → kio_config_init kernel before ≡ (none, s)
    → s.config.threads ≡ none
unfolding kio_config_init
init_threads kernel before s h = elim (Option-cases (kernel.kobject_create_and_add before.trace)) [
  | inl null ↦ ground arith
  | inr (k, made) ↦
      let s1 = log (created k) (with_module_kobj (some k) before) in
      ground (arith, create_files-frame kernel k module_attrs s1)
]

pub Reached-WellFormed : (s : Kio) → Reached s → WellFormed s
Reached-WellFormed s (initialised kernel before h) = inl (init_threads kernel before s h)
Reached-WellFormed s (written o w {s = s0} r trusted reached served run) =
    let (r', s', run', wf) =
      store-WellFormed o trusted w s0 (Reached-WellFormed s0 reached) served in
    let same : s' ≡ s = cc in subst WellFormed same wf

-- In every state that the module reaches from a successful kio_config_init by writes to its
-- files: a further write returns, and leaves a state so reached. Conditions: sscanf and kstrtol
-- return numbers of their types, the size of the device is a 64-bit number, every kthread_run
-- succeeds and every kthread_stop returns, and the file of a variable is written to only while
-- threads are allocated.
pub Reached-writes_return :
    (o : Outside) (w : Write) (s : Kio)
    → Trusted o
    → Reached s
    → Served w s
    → (r : Result ℕ) × (s' : Kio) × (store o w s ≡ done (r, s')) × Reached s'
Reached-writes_return o w s trusted reached served =
    let (r, s', run, wf) = store-WellFormed o trusted w s (Reached-WellFormed s reached) served in
    (r, s', run, written o w r trusted reached served run)

exit_none :
    (s : Kio) → s.config.num_threads ≡ 0 → kio_config_exit s ≡ done (put_module (free_threads s))
unfolding kio_config_exit
exit_none s no_threads = rw (destroy_all_threads-none s no_threads) refl

exit_allocated :
    (s : Kio) (ths : List KioThreadConfig) → IsAllocated s.config ths → kio_config_exit s ≢ fault
unfolding kio_config_exit
exit_allocated s ths a faults =
    let run = destroy_all_threads-eq ths s a.allocated a.counted in
    let returns = ap (λ m. m >>= λ s'. done (put_module s')) run in cc

pub exit_left_over :
    (s : Kio) → s.config.threads ≡ none → s.config.num_threads ≢ 0 → kio_config_exit s ≡ fault
unfolding kio_config_exit
exit_left_over s null num = rw (destroy_all_threads-fault s null num) refl

exit_returns :
    (s : Kio) (ths : List KioThreadConfig)
    → IsAllocated s.config ths
    → (s' : Kio) × (kio_config_exit s ≡ done s') × (s'.config.threads ≡ none)
unfolding kio_config_exit
exit_returns s ths a =
    let run = destroy_all_threads-eq ths s a.allocated a.counted in
    let returns = ap (λ m. m >>= λ s'. done (put_module s')) run in (_, returns, ground arith)

-- The exit returns with nothing allocated, or the number of threads was left over and it faults.
pub Reached-exit :
    (s : Kio)
    → Reached s
    → ((s' : Kio) × (kio_config_exit s ≡ done s') × (s'.config.threads ≡ none))
      ⊎ ((s.config.threads ≡ none) × (s.config.num_threads ≢ 0) × (kio_config_exit s ≡ fault))
Reached-exit s reached = elim (Reached-WellFormed s reached) [
  | inr (ths, a) ↦ inl (exit_returns s ths a)
  | inl null ↦ elim (ℕ_discrete s.config.num_threads 0) [
    | yes none_left ↦ inl (_, exit_none s none_left, ground arith)
    | no some_left ↦ inr (null, some_left, exit_left_over s null some_left)
  ]
]

-- In every state that the module reaches from a successful kio_config_init by writes to its
-- files, kio_config_exit faults exactly if num_threads is not zero and no threads are allocated.
pub Reached-exit_fault_iff :
    (s : Kio)
    → Reached s
    → (kio_config_exit s ≡ fault) ↔ ((s.config.threads ≡ none) × (s.config.num_threads ≢ 0))
Reached-exit_fault_iff s reached = (
  (λ faults. elim (Reached-WellFormed s reached) [
    | inl null ↦ (null, λ none_left. cc (exit_none s none_left, faults))
    | inr (ths, a) ↦ absurd (exit_allocated s ths a faults)
  ]),
  (λ left. exit_left_over s left.0 left.1),
)
