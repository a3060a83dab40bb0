-- ===== src/Config/Threads/Created.antt =====
-- What `kio_config_create_thread` does to the array of threads.
use kernel_io.Common.{
  ℕ, ◌<◌, ◌≡◌, ◌∙◌, sym, ap, refl, Option, none, some, List, [], ◌∷◌, arith, inl, inr, Option-cases,
  length, length-set, lt-get_elem?, get_elem?, set, done, All-set, All-get_elem?,
}
use kernel_io.Config.Types.{KioThreadConfig, IsAllocated, Fits}
use kernel_io.Kernel.{Attr, created, filed, Kernel, Kio, log}
use kernel_io.Config.Threads.{
  create_files, or_put, kio_config_create_thread, set_kobj, thread_attrs,
}

-- Only the trace grows.
pub create_files-frame :
    (kernel : Kernel) (kobj : ℕ) (attrs : List Attr) (s : Kio)
    → (create_files kernel kobj attrs s).1
      ≡ record s { trace = (create_files kernel kobj attrs s).1.trace }
unfolding create_files
create_files-frame kernel kobj [] s = refl
create_files-frame kernel kobj (a ∷ rest) s =
    ground (arith, create_files-frame kernel kobj rest (log (filed kobj a) s))

-- The array after thread `i` has been created, and the outcome.
pub record Created (i : ℕ) (s : Kio) (ths : List KioThreadConfig) (r : Option ℕ × Kio)
    : Type 0 where
  pub thread : KioThreadConfig
  pub kobj : Option ℕ
  pub there : get_elem? ths i ≡ some thread
  pub threads : r.1.config.threads ≡ some (set ths i (record thread { kobj = kobj }))
  pub same :
      r.1
      ≡ record s { config = record s.config { threads = r.1.config.threads }; trace = r.1.trace }

module _ (kernel : Kernel) where
  pub create_thread-Created :
      (i : ℕ) (s : Kio) (ths : List KioThreadConfig)
      → s.config.threads ≡ some ths
      → i < length ths
      → (r : Option ℕ × Kio) × (kio_config_create_thread kernel i s ≡ done r) × Created i s ths r
  unfolding kio_config_create_thread
  create_thread-Created i s ths at_threads lt =
      let (t, e) = lt-get_elem? ths i lt in
      elim (Option-cases (kernel.kobject_create_and_add s.trace)) [
        | inl null ↦ (
          (some 12, set_kobj i t none s),
          ground arith,
          record {
            thread = t;
            kobj = none;
            there = e;
            threads = ground arith;
            same = ground arith;
          },
        )
        | inr (k, made) ↦
            let s1 = log (created k) (set_kobj i t (some k) s) in
            (
              or_put k (create_files kernel k thread_attrs s1),
              ground arith,
              record {
                thread = t;
                kobj = some k;
                there = e;
                threads = ground (arith, create_files-frame kernel k thread_attrs s1);
                same = ground (arith, create_files-frame kernel k thread_attrs s1);
              },
            )
      ]

  -- After a thread has been created the array is as well formed as before.
  pub Created-IsAllocated :
      (i : ℕ) (s : Kio) (ths : List KioThreadConfig) (r : Option ℕ × Kio)
      → IsAllocated s.config ths
      → (c : Created i s ths r)
      → IsAllocated r.1.config (set ths i (record c.thread { kobj = c.kobj }))
  Created-IsAllocated i s ths r a c = record {
    allocated = c.threads;
    counted =
        length-set ths i (record c.thread { kobj = c.kobj })
        ∙ a.counted
        ∙ sym (ap (λ u. u.config.num_threads) c.same);
    fits =
        All-set Fits ths i _ a.fits
          (let f = All-get_elem? Fits ths i a.fits c.there in omega arith);
  }
