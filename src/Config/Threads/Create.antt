-- ===== src/Config/Threads/Create.antt =====
-- What `kio_num_threads_store` can come to.
use kernel_io.Common.{
  ℕ, zero, suc, ◌+◌, ◌^◌, ◌≤◌, ◌<◌, ◌≡◌, ◌≢◌, ◌∙◌, ap, refl, Bool-cases, Option, none, some, List,
  arith, inl, inr, length, length-set, length-replicate, replicate, done, Result, ok, err, u32,
  All-replicate,
}
use kernel_io.Config.Types.{KioThreadConfig, IsAllocated, Fits}
use kernel_io.Kernel.{Kernel, Kio}
use kernel_io.Config.Threads.{
  kio_config_create_thread, create_threads, kio_num_threads_store, kio_config_destroy_all_threads,
  is_configured, out_of_range, scanned, zeroed, allocate,
}
use kernel_io.Config.Threads.Destroy.{destroy_all_threads-eq}
use kernel_io.Config.Threads.Created.{create_thread-Created, Created-IsAllocated}

module _ (kernel : Kernel) where
  -- How the loop ends: with every thread created, or with none allocated and their number kept.
  abbrev pub Ends : ℕ → Kio → Result ℕ × Kio → Type 0
  Ends count s (ok n, s') =
      (n ≡ u32 count)
      × (s'.config.num_threads ≡ s.config.num_threads)
      × ((ths : List KioThreadConfig) × IsAllocated s'.config ths)
  Ends count s (err e, s') =
      (s'.config.num_threads ≡ s.config.num_threads) × (s'.config.threads ≡ none)

  destroyed-IsAllocated :
      (s : Kio) (ths : List KioThreadConfig)
      → IsAllocated s.config ths
      → (s' : Kio) × (kio_config_destroy_all_threads s ≡ done s')
        × (s'.config.num_threads ≡ s.config.num_threads)
        × (s'.config.threads ≡ none)
  destroyed-IsAllocated s ths a =
      (_, destroy_all_threads-eq ths s a.allocated a.counted, refl, refl)

  Ends-num :
      (count : ℕ) (s u : Kio) (r : Result ℕ × Kio)
      → u.config.num_threads ≡ s.config.num_threads
      → Ends count u r
      → Ends count s r
  Ends-num count s u (ok n, s') e (a, b, c) = (a, b ∙ e, c)
  Ends-num count s u (err n, s') e (b, c) = (b ∙ e, c)

  -- One round, from what the later rounds come to.
  next_thread :
      (count rounds i : ℕ) (s : Kio) (r : Option ℕ × Kio)
      → kio_config_create_thread kernel i s ≡ done r
      → r.1.config.num_threads ≡ s.config.num_threads
      → (ths : List KioThreadConfig) → IsAllocated r.1.config ths
      → ((q : Result ℕ × Kio) × (create_threads kernel count rounds (i + 1) r.1 ≡ done q)
          × Ends count r.1 q)
      → (q : Result ℕ × Kio) × (create_threads kernel count (suc rounds) i s ≡ done q)
        × Ends count s q
  unfolding create_threads
  next_thread count rounds i s (none, u) made num ths a (q, run, ends) =
      (q, rw made run, Ends-num count s u q num ends)
  next_thread count rounds i s (some e, u) made num ths a later =
      let (s', gone, num', null) = destroyed-IsAllocated u ths a in
      ((err e, s'), rw (made, gone) refl, (num' ∙ num, null))

  create_threads-Ends :
      (count rounds i : ℕ) (s : Kio) (ths : List KioThreadConfig)
      → IsAllocated s.config ths
      → i + rounds ≡ length ths
      → (r : Result ℕ × Kio) × (create_threads kernel count rounds i s ≡ done r) × Ends count s r
  unfolding create_threads
  create_threads-Ends count zero i s ths a h = ((ok (u32 count), s), refl, (refl, refl, (ths, a)))
  create_threads-Ends count (suc rounds) i s ths a h =
      let (r, made, c) = create_thread-Created kernel i s ths a.allocated (omega arith) in
      let a' = Created-IsAllocated kernel i s ths r a c in
      let num : r.1.config.num_threads ≡ s.config.num_threads =
        ap (λ u. u.config.num_threads) c.same in
      next_thread count rounds i s r made num _ a' (
        create_threads-Ends count rounds (i + 1) r.1 _ a'
          (omega (arith, length-set ths i (record c.thread { kobj = c.kobj }))))

  -- What a store into `num_threads` has come to: nothing, all threads, or a number of threads with
  -- none allocated.
  pub data Setup (s : Kio) : Result ℕ → Kio → Type 0 where
    unchanged : {r : Result ℕ} {s' : Kio} (e : ℕ) → r ≡ err e → s' ≡ s → Setup s r s'
    allocated :
        {r : Result ℕ} {s' : Kio} (count : ℕ) (ths : List KioThreadConfig)
        → r ≡ ok (u32 count)
        → IsAllocated s'.config ths
        → 1 ≤ s'.config.num_threads
        → s'.config.num_threads ≤ kernel.num_online_cpus
        → s.config.threads ≡ none
        → Setup s r s'
    left_over :
        {r : Result ℕ} {s' : Kio} (e : ℕ)
        → r ≡ err e
        → s'.config.threads ≡ none
        → s'.config.num_threads ≢ 0
        → Setup s r s'

  module _ (sscanf : List ℕ → Option ℕ)
      (fits : (buf : List ℕ) (n : ℕ) → sscanf buf ≡ some n → n < 2 ^ 32) (s : Kio) where
    allocate-IsAllocated : (n : ℕ) → IsAllocated (allocate n s).config (replicate n zeroed)
    allocate-IsAllocated n = record {
      allocated = refl;
      counted = length-replicate n zeroed;
      fits = All-replicate Fits n zeroed (omega arith);
    }

    created_threads :
        (count n : ℕ)
        → (r : Result ℕ × Kio) × (create_threads kernel count n 0 (allocate n s) ≡ done r)
          × Ends count (allocate n s) r
    created_threads count n =
        create_threads-Ends count n 0 (allocate n s) (replicate n zeroed) (allocate-IsAllocated n)
          (omega (arith, length-replicate n zeroed))

    Ends-Setup :
        (count n : ℕ) (r : Result ℕ × Kio)
        → 1 ≤ n
        → n ≤ kernel.num_online_cpus
        → s.config.threads ≡ none
        → Ends count (allocate n s) r
        → Setup s r.0 r.1
    Ends-Setup count n (ok m, s') low high null (counted, num, (ths, a)) =
        allocated count ths (ap ok counted) a (omega arith) (omega arith) null
    Ends-Setup count n (err e, s') low high null (num, gone) = left_over e refl gone (omega arith)

    -- If sscanf returns 32-bit numbers, a store into num_threads never faults, whatever the
    -- kernel's calls return, and comes to one of three things: an error that leaves the module as
    -- it was; success with at least one thread, no more threads than processors and an allocated
    -- configuration, where none was before; or an error with no threads allocated and num_threads
    -- not zero.
    pub kio_num_threads_store-Setup :
        (buf : List ℕ) (count : ℕ)
        → (r : Result ℕ) × (s' : Kio) × (kio_num_threads_store kernel sscanf buf count s
            ≡ done (r, s'))
          × Setup s r s'
    unfolding kio_num_threads_store
    kio_num_threads_store-Setup buf count = elim (Bool-cases s.kio_running) [
      | inl busy ↦ (err 16, s, ground arith, unchanged 16 refl refl)
      | inr idle ↦ elim (Bool-cases (is_configured s)) [
        | inl old ↦ (err 17, s, ground arith, unchanged 17 refl refl)
        | inr new ↦
            let n = scanned (sscanf buf) in
            elim (Bool-cases (out_of_range kernel n)) [
              | inl bad ↦ (err 22, s, ground arith, unchanged 22 refl refl)
              | inr good ↦ elim (Bool-cases (kernel.kzalloc s.trace n)) [
                | inr no_memory ↦ (err 12, s, ground arith, unchanged 12 refl refl)
                | inl memory ↦
                    let (r, run, ends) = created_threads count n in
                    (
                      r.0,
                      r.1,
                      ground (arith, run),
                      Ends-Setup count n r (ground arith) (ground arith) (ground arith) ends,
                    )
              ]
            ]
      ]
    ]
