-- ===== src/Config/Threads/Frames.antt =====
-- What the setting up and the tearing down of the threads leave as it was.
use kernel_io.Common.{
  ℕ, zero, suc, ◌+◌, ◌≡◌, ◌∙◌, refl, Bool-cases, inl, inr, Option, some, Option-cases, List, arith,
  done, load, get_elem?, >>=-eq-done, Result, err,
}
use kernel_io.Config.Types.{KioThreadConfig, cells}
use kernel_io.Config.Threads.{
  thread_attrs, drop_kobj, set_kobj, destroy_threads, kio_config_destroy_all_threads,
  kio_config_create_thread, create_threads, kio_num_threads_store, allocate, free_threads,
  is_configured, out_of_range, scanned,
}
use kernel_io.Config.Threads.Created.{create_files-frame}
use kernel_io.Kernel.{Kernel, Kio, created, log}

-- The time of a run and the flag of a run are as they were.
abbrev pub Kept : Kio → Kio → Type 0
Kept s s' =
    (s'.config.runtime_seconds ≡ s.config.runtime_seconds) × (s'.kio_running ≡ s.kio_running)

trans-Kept : (s u v : Kio) → Kept s u → Kept u v → Kept s v
trans-Kept s u v k l = (l.0 ∙ k.0, l.1 ∙ k.1)

drop_kobj-Kept : (i : ℕ) (t : KioThreadConfig) (s : Kio) → Kept s (drop_kobj i t s)
drop_kobj-Kept i t s = elim (Option-cases t.kobj) [
  | inl null ↦ rw null (refl, refl)
  | inr (k, there) ↦ rw there (refl, refl)
]

destroy_threads-Kept :
    (rounds i : ℕ) (s s' : Kio) → destroy_threads rounds i s ≡ done s' → Kept s s'
unfolding destroy_threads
destroy_threads-Kept zero i s s' h = ground arith
destroy_threads-Kept (suc rounds) i s s' h =
    let (t, loaded, rest) = >>=-eq-done (load (get_elem? (cells s.config.threads) i)) _ h in
    trans-Kept s (drop_kobj i t s) s' (drop_kobj-Kept i t s)
      (destroy_threads-Kept rounds (i + 1) (drop_kobj i t s) s' rest)

free_threads-Kept : (s : Kio) → Kept s (free_threads s)
free_threads-Kept s = elim (Option-cases s.config.threads) [
  | inl null ↦ rw null (refl, refl)
  | inr (ths, there) ↦ rw there (refl, refl)
]

destroy_all-Kept : (s s' : Kio) → kio_config_destroy_all_threads s ≡ done s' → Kept s s'
unfolding kio_config_destroy_all_threads
destroy_all-Kept s s' h =
    let (u, destroyed, rest) = >>=-eq-done (destroy_threads s.config.num_threads 0 s) _ h in
    let same = destroy_threads-Kept s.config.num_threads 0 s u destroyed in
    let step = free_threads-Kept u in ground (arith, same, step, rest)

module _ (kernel : Kernel) where
  create_thread-Kept :
      (i : ℕ) (s : Kio) (r : Option ℕ × Kio)
      → kio_config_create_thread kernel i s ≡ done r
      → Kept s r.1
  unfolding kio_config_create_thread
  create_thread-Kept i s r h =
      let (t, loaded, rest) = >>=-eq-done (load (get_elem? (cells s.config.threads) i)) _ h in
      elim (Option-cases (kernel.kobject_create_and_add s.trace)) [
        | inl null ↦ ground arith
        | inr (k, made) ↦ ground (
          arith,
          create_files-frame kernel k thread_attrs (log (created k) (set_kobj i t (some k) s)),
        )
      ]

  create_threads-Kept :
      (count rounds i : ℕ) (s : Kio) (r : Result ℕ × Kio)
      → create_threads kernel count rounds i s ≡ done r
      → Kept s r.1
  unfolding create_threads
  create_threads-Kept count zero i s r h = ground arith
  create_threads-Kept count (suc rounds) i s r h =
      let (u, made, rest) = >>=-eq-done (kio_config_create_thread kernel i s) _ h in
      let one = create_thread-Kept i s u made in
      elim (Option-cases u.0) [
        | inl fine ↦
            trans-Kept s u.1 r.1 one (create_threads-Kept count rounds (i + 1) u.1 r (ground arith))
        | inr (e, failed) ↦
            let (v, gone, last) =
              >>=-eq-done (kio_config_destroy_all_threads u.1) (λ s'. done (err e, s')) {b = r}
                (ground arith) in
            let two = destroy_all-Kept u.1 v gone in ground arith
      ]

  pub num_threads_store-Kept :
      (sscanf : List ℕ → Option ℕ) (buf : List ℕ) (count : ℕ) (s : Kio) (r : Result ℕ × Kio)
      → kio_num_threads_store kernel sscanf buf count s ≡ done r
      → Kept s r.1
  unfolding kio_num_threads_store
  num_threads_store-Kept sscanf buf count s r h = elim (Bool-cases s.kio_running) [
    | inl busy ↦ ground arith
    | inr idle ↦ elim (Bool-cases (is_configured s)) [
      | inl old ↦ ground arith
      | inr new ↦
          let n = scanned (sscanf buf) in
          elim (Bool-cases (out_of_range kernel n)) [
            | inl bad ↦ ground arith
            | inr good ↦ elim (Bool-cases (kernel.kzalloc s.trace n)) [
              | inr no_memory ↦ ground arith
              | inl memory ↦ create_threads-Kept count n 0 (allocate n s) r (ground arith)
            ]
          ]
    ]
  ]
