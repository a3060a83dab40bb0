-- ===== src/Config/Ledger.antt =====
-- What the configuration holds, kobjects and the memory of the threads, against the trace.
pub mod Threads
use kernel_io.Common.{
  ℕ, ◌+◌, ◌≡◌, ◌∙◌, refl, inl, inr, Option-cases, Option, none, some, List, [], ◌∷◌, arith, ◌==◌,
  if◌then◌else◌, sum_of, done,
}
use kernel_io.Config.Types.{KioThreadConfig, cells}
use kernel_io.Config.Threads.{create_files, or_put}
use kernel_io.Config.Threads.Destroy.{put_kobj, put_all}
use kernel_io.Kernel.{Attr, Event, created, filed, put, Kernel, Kio, log}
use kernel_io.Kernel.Ledger.{creations, puts, allocations, frees}

abbrev pub holds : ℕ → Option ℕ → ℕ
holds k none = 0
holds k (some j) = if j == k then 1 else 0

abbrev pub held_by_threads : ℕ → List KioThreadConfig → ℕ
held_by_threads k ths = sum_of (λ t. holds k t.kobj) ths

-- How many pointers hold a kobject: `kio_kobj` and those of the threads.
abbrev pub held : ℕ → Kio → ℕ
held k s = holds k s.kio_kobj + held_by_threads k (cells s.config.threads)

abbrev pub arrays : Option (List KioThreadConfig) → ℕ
arrays none = 0
arrays (some _) = 1

-- Since `b` each kobject has been put as often as created, less the pointers that hold it, and the
-- array of the threads is allocated if one more has been allocated than freed.
pub record Balanced (b s : Kio) : Type 0 where
  pub kobjects :
      (k : ℕ)
      → creations k s.trace + puts k b.trace ≡ creations k b.trace + puts k s.trace + held k s
  pub memory :
      allocations s.trace + frees b.trace
      ≡ allocations b.trace + frees s.trace + arrays s.config.threads

-- Since `b` each kobject has been put as often as created, and all memory is freed.
pub record Settled (b s : Kio) : Type 0 where
  pub kobjects :
      (k : ℕ) → creations k s.trace + puts k b.trace ≡ creations k b.trace + puts k s.trace
  pub memory : allocations s.trace + frees b.trace ≡ allocations b.trace + frees s.trace

-- Two states that have come by the same calls and hold the same.
pub record SameHoldings (s s' : Kio) : Type 0 where
  pub trace : s'.trace ≡ s.trace
  pub kobjects : (k : ℕ) → held k s' ≡ held k s
  pub memory : arrays s'.config.threads ≡ arrays s.config.threads

pub SameHoldings-Balanced : (b s s' : Kio) → SameHoldings s s' → Balanced b s → Balanced b s'
SameHoldings-Balanced b s s' same v = record {
  kobjects = λ k. rw same.trace (omega (arith, same.kobjects k, v.kobjects k));
  memory = rw same.trace (omega (arith, same.memory, v.memory));
}

-- The files change none of the counts.
pub create_files-counts :
    (kernel : Kernel) (kobj : ℕ) (attrs : List Attr) (s : Kio)
    → let trace = (create_files kernel kobj attrs s).1.trace in
      ((k : ℕ) → creations k trace ≡ creations k s.trace)
      × ((k : ℕ) → puts k trace ≡ puts k s.trace)
      × (allocations trace ≡ allocations s.trace)
      × (frees trace ≡ frees s.trace)
unfolding create_files
create_files-counts kernel kobj [] s = ((λ k. refl), (λ k. refl), refl, refl)
create_files-counts kernel kobj (a ∷ rest) s =
    elim (Option-cases (kernel.sysfs_create_file s.trace kobj a)) [
      | inl fine ↦
          rw (fine, create_files) (create_files-counts kernel kobj rest (log (filed kobj a) s))
      | inr (e, failed) ↦ rw (failed, create_files) ((λ k. refl), (λ k. refl), refl, refl)
    ]

put_kobj-counts :
    (o : Option ℕ) (trace : List Event)
    → ((k : ℕ) → creations k (put_kobj o trace) ≡ creations k trace)
      × ((k : ℕ) → puts k (put_kobj o trace) ≡ puts k trace + holds k o)
      × (allocations (put_kobj o trace) ≡ allocations trace)
      × (frees (put_kobj o trace) ≡ frees trace)
put_kobj-counts none trace = ((λ k. refl), (λ k. omega arith), refl, refl)
put_kobj-counts (some j) trace = ((λ k. refl), (λ k. ground arith), refl, refl)

-- Of the threads each kobject is put as often as they hold it.
pub put_all-counts :
    (ths : List KioThreadConfig) (trace : List Event)
    → ((k : ℕ) → creations k (put_all ths trace) ≡ creations k trace)
      × ((k : ℕ) → puts k (put_all ths trace) ≡ puts k trace + held_by_threads k ths)
      × (allocations (put_all ths trace) ≡ allocations trace)
      × (frees (put_all ths trace) ≡ frees trace)
put_all-counts [] trace = ((λ k. refl), (λ k. omega arith), refl, refl)
put_all-counts (t ∷ ths) trace =
    let (c, p, a, f) = put_kobj-counts t.kobj trace in
    let (c', p', a', f') = put_all-counts ths (put_kobj t.kobj trace) in
    ((λ k. c' k ∙ c k), (λ k. omega (arith, p k, p' k)), a' ∙ a, f' ∙ f)
