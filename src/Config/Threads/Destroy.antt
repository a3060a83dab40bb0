-- ===== src/Config/Threads/Destroy.antt =====
-- What `kio_config_destroy_all_threads` does, as a function of the list of threads.
use kernel_io.Common.{
  ℕ, zero, suc, ◌≡◌, ◌≢◌, ◌∙◌, sym, ap, ◌>>=◌, refl, Option, none, some, List, [], ◌∷◌, ◌++◌, arith,
  inl, inr, Option-cases, length, length-snoc, get_elem?-append, set-append, done, fault,
}
use mathlib.Core.List.{map, append_assoc}
use kernel_io.Config.Types.{KioThreadConfig}
use kernel_io.Kernel.{Event, put, freed, Kio}
use kernel_io.Config.Threads.{
  drop_kobj, destroy_threads, kio_config_destroy_all_threads, free_threads,
}

-- The module with these threads and this trace.
abbrev pub with_threads : Kio → List KioThreadConfig → List Event → Kio
with_threads s ths trace = record s {
  config = record s.config { threads = some ths };
  trace = trace;
}

abbrev pub cleared : KioThreadConfig → KioThreadConfig
cleared t = record t { kobj = none }

-- The trace after the kobjects of the threads have been put, in the order of the threads.
abbrev pub put_kobj : Option ℕ → List Event → List Event
put_kobj none trace = trace
put_kobj (some k) trace = put k ∷ trace

abbrev pub put_all : List KioThreadConfig → List Event → List Event
put_all [] trace = trace
put_all (t ∷ ts) trace = put_all ts (put_kobj t.kobj trace)

drop_kobj_lem :
    (before : List KioThreadConfig) (t : KioThreadConfig) (ts : List KioThreadConfig) (s : Kio)
    (trace : List Event)
    → drop_kobj (length before) t (with_threads s (before ++ t ∷ ts) trace)
      ≡ with_threads s (before ++ cleared t ∷ ts) (put_kobj t.kobj trace)
drop_kobj_lem before t ts s trace = elim (Option-cases t.kobj) [
  | inl null ↦ ground arith
  | inr (k, held) ↦ ground (arith, set-append before t (cleared t) ts)
]

pub destroy_threads-eq :
    (before ts : List KioThreadConfig) (s : Kio) (trace : List Event)
    → destroy_threads (length ts) (length before) (with_threads s (before ++ ts) trace)
      ≡ done (with_threads s (before ++ map cleared ts) (put_all ts trace))
unfolding destroy_threads
destroy_threads-eq before [] s trace = refl
destroy_threads-eq before (t ∷ ts) s trace =
    let ih = destroy_threads-eq (before ++ cleared t ∷ []) ts s (put_kobj t.kobj trace) in
    rw (get_elem?-append before t ts, drop_kobj_lem before t ts s trace)
      (rw
        (
          length-snoc before (cleared t),
          append_assoc before (cleared t ∷ []) ts,
          append_assoc before (cleared t ∷ []) (map cleared ts),
        )
        at ih)

-- With as many threads allocated as num_threads says, kio_config_destroy_all_threads puts every
-- kobject that a thread holds, in the order of the threads, then frees their memory once, and
-- leaves no threads; num_threads it leaves as it was.
pub destroy_all_threads-eq :
    (ths : List KioThreadConfig) (s : Kio)
    → s.config.threads ≡ some ths
    → length ths ≡ s.config.num_threads
    → kio_config_destroy_all_threads s
      ≡ done (record s {
        config = record s.config { threads = none };
        trace = freed ∷ put_all ths s.trace;
      })
unfolding kio_config_destroy_all_threads
destroy_all_threads-eq ths s at_threads counted =
    let same : with_threads s ths s.trace ≡ s = ground arith in
    ap (λ m. m >>= λ s'. done (free_threads s'))
      (ap (λ n. destroy_threads n 0 s) (sym counted)
        ∙ ap (destroy_threads (length ths) 0) (sym same)
        ∙ destroy_threads-eq [] ths s s.trace)

destroy_threads-fault :
    (n : ℕ) (s : Kio) → s.config.threads ≡ none → n ≢ 0 → destroy_threads n 0 s ≡ fault
unfolding destroy_threads
destroy_threads-fault zero s null ne = absurd (ne refl)
destroy_threads-fault (suc n) s null ne = ground arith

-- With no threads allocated and their number not reset, it reads through NULL.
pub destroy_all_threads-fault :
    (s : Kio)
    → s.config.threads ≡ none
    → s.config.num_threads ≢ 0
    → kio_config_destroy_all_threads s ≡ fault
unfolding kio_config_destroy_all_threads
destroy_all_threads-fault s null some_threads =
    rw (
      destroy_threads-fault s.config.num_threads s null some_threads,
      kio_config_destroy_all_threads,
    )

-- Of no threads, none are destroyed.
pub destroy_all_threads-none :
    (s : Kio) → s.config.num_threads ≡ 0 → kio_config_destroy_all_threads s ≡ done (free_threads s)
unfolding kio_config_destroy_all_threads destroy_threads
destroy_all_threads-none s no_threads =
    ap (λ n. destroy_threads n 0 s >>= λ s'. done (free_threads s')) no_threads
