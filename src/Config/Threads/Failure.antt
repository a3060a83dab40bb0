-- ===== src/Config/Threads/Failure.antt =====
-- What a failed creation of a thread leaves behind.
use kernel_io.Common.{
  ℕ, zero, suc, ◌≤◌, ◌<◌, ◌≡◌, ◌≢◌, ◌∙◌, sym, refl, Option, none, some, List, [], ◌∷◌, arith,
  length, length-set, get_elem?, set, get_elem?-set_self, lt-get_elem?, done, fault, err, ebusy,
  eexist, if◌then◌else◌,
}
use kernel_io.Config.Types.{KioThreadConfig, IsAllocated}
use kernel_io.Kernel.{created, put, freed, Event, Kernel, Kio, log}
use kernel_io.Kernel.Ledger.{puts}
use kernel_io.Config.Threads.{
  thread_attrs, create_files, set_kobj, kio_config_create_thread, kio_num_threads_store,
  kio_config_destroy_all_threads,
}
use kernel_io.Config.Threads.Destroy.{
  put_kobj, put_all, destroy_all_threads-eq, destroy_all_threads-fault,
}
use kernel_io.Config.Threads.Created.{create_files-frame}

puts-put_kobj-le :
    (k : ℕ) (o : Option ℕ) (trace : List Event) → puts k trace ≤ puts k (put_kobj o trace)
puts-put_kobj-le k none trace = omega arith
puts-put_kobj-le k (some j) trace = ground arith

puts-put_all-le :
    (k : ℕ) (ths : List KioThreadConfig) (trace : List Event)
    → puts k trace ≤ puts k (put_all ths trace)
puts-put_all-le k [] trace = omega arith
puts-put_all-le k (t ∷ ths) trace =
    omega (arith, puts-put_kobj-le k t.kobj trace, puts-put_all-le k ths (put_kobj t.kobj trace))

-- Every kobject that a thread holds is put.
puts-put_all-lt :
    (k : ℕ) (ths : List KioThreadConfig) (i : ℕ) (t : KioThreadConfig) (trace : List Event)
    → get_elem? ths i ≡ some t
    → t.kobj ≡ some k
    → puts k trace < puts k (put_all ths trace)
puts-put_all-lt k [] i t trace e h = cc
puts-put_all-lt k (u ∷ ths) zero t trace e h =
    let held : u.kobj ≡ some k = ground arith in
    let rest = puts-put_all-le k ths (put_kobj u.kobj trace) in ground arith
puts-put_all-lt k (u ∷ ths) (suc i) t trace e h =
    omega (
      arith,
      puts-put_kobj-le k u.kobj trace,
      puts-put_all-lt k ths i t (put_kobj u.kobj trace) e h,
    )

module _ (kernel : Kernel) where
  -- A thread whose files could not be created has put its kobject and points to it still.
  create_thread_failed :
      (i e k : ℕ) (s s' : Kio) (ths : List KioThreadConfig) (t : KioThreadConfig)
      → s.config.threads ≡ some ths
      → get_elem? ths i ≡ some t
      → kernel.kobject_create_and_add s.trace ≡ some k
      → kio_config_create_thread kernel i s ≡ done (some e, s')
      → (trace : List Event) × (s'.trace ≡ put k ∷ trace)
        × (s'.config.threads ≡ some (set ths i (record t { kobj = some k })))
        × (s'.config.num_threads ≡ s.config.num_threads)
  unfolding kio_config_create_thread
  create_thread_failed i e k s s' ths t at_threads at_i made failed =
      let s1 = log (created k) (set_kobj i t (some k) s) in
      (
        (create_files kernel k thread_attrs s1).1.trace,
        ground (arith, create_files-frame kernel k thread_attrs s1),
        ground (arith, create_files-frame kernel k thread_attrs s1),
        ground (arith, create_files-frame kernel k thread_attrs s1),
      )

  -- In an allocated configuration: if kio_config_create_thread got a kobject for a thread and
  -- then failed, and kio_config_destroy_all_threads is called after it and returns, then that
  -- kobject has been put at least twice.
  pub failed_thread_put_twice :
      (i e k : ℕ) (s s' s'' : Kio) (ths : List KioThreadConfig)
      → IsAllocated s.config ths
      → i < length ths
      → kernel.kobject_create_and_add s.trace ≡ some k
      → kio_config_create_thread kernel i s ≡ done (some e, s')
      → kio_config_destroy_all_threads s' ≡ done s''
      → 2 ≤ puts k s''.trace
  failed_thread_put_twice i e k s s' s'' ths a lt made failed destroyed =
      let (t, at_i) = lt-get_elem? ths i lt in
      let (trace, at_trace, at_threads, num) =
        create_thread_failed i e k s s' ths t a.allocated at_i made failed in
      let t' = record t { kobj = some k } in
      let ths' = set ths i t' in
      let after =
        destroy_all_threads-eq ths' s' at_threads (length-set ths i t' ∙ a.counted ∙ sym num) in
      let last : s''.trace ≡ freed ∷ put_all ths' s'.trace = ground arith in
      let again = puts-put_all-lt k ths' i t' s'.trace (get_elem?-set_self ths i t' lt) refl in
      let first : puts k s'.trace ≡ suc (puts k trace) = rw at_trace (ground arith) in
      rw last (omega arith)

  -- While no threads are allocated but num_threads is not zero, every store into num_threads is
  -- refused, with EBUSY or EEXIST, and changes nothing, and kio_config_destroy_all_threads
  -- faults.
  pub left_over_threads :
      (sscanf : List ℕ → Option ℕ) (buf : List ℕ) (count : ℕ) (s : Kio)
      → s.config.threads ≡ none
      → s.config.num_threads ≢ 0
      → (kio_num_threads_store kernel sscanf buf count s
          ≡ done (err (if s.kio_running then ebusy else eexist), s))
        × (kio_config_destroy_all_threads s ≡ fault)
  unfolding kio_num_threads_store
  left_over_threads sscanf buf count s null num =
      (ground arith, destroy_all_threads-fault s null num)
