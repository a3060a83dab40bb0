-- ===== src/Tests/Ledgers.antt =====
-- What the module holds, from its initialisation to its exit.
use kernel_io.Common.{ℕ, ◌≡◌, refl, none, some, List, [], ◌∷◌, done, ok}
use kernel_io.Config.Threads.{
  create_files, kio_config_create_thread, create_threads, destroy_threads,
  kio_config_destroy_all_threads, kio_num_threads_store, zeroed, thread_attrs,
}
use kernel_io.Config.Module.{kio_config_init, kio_config_exit}
use kernel_io.Kernel.{Attr, Event, Kio, filed, created, zalloc, put, freed}
use kernel_io.Control.{to_num_threads, store}
use kernel_io.Tests.Lifecycle.{kernel, empty}
use kernel_io.Tests.Writes.{outside, fresh}

abbrev filed_all : ℕ → List Attr → List Event → List Event
filed_all k [] trace = trace
filed_all k (a ∷ attrs) trace = filed_all k attrs (filed k a ∷ trace)

-- One thread, with its directory.
abbrev pub set_up : Kio
set_up = record fresh {
  config = record fresh.config {
    num_threads = 1;
    threads = some (record zeroed { kobj = some 5 } ∷ []);
  };
  trace = filed_all 5 thread_attrs (created 5 ∷ zalloc 1 ∷ fresh.trace);
}

thread_set_up : store outside (to_num_threads (1 ∷ []) 2) fresh ≡ done (ok 2, set_up)
unfolding store kio_num_threads_store create_threads kio_config_create_thread create_files
thread_set_up = refl

fresh_init : kio_config_init kernel empty ≡ (none, fresh)
unfolding kio_config_init create_files
fresh_init = refl

abbrev torn_down : Kio
torn_down = record set_up {
  config = record set_up.config { threads = none };
  trace = put 0 ∷ freed ∷ put 5 ∷ set_up.trace;
}

exit_run : kio_config_exit set_up ≡ done torn_down
unfolding kio_config_exit kio_config_destroy_all_threads destroy_threads
exit_run = refl
