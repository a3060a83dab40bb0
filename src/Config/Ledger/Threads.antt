-- ===== src/Config/Ledger/Threads.antt =====
-- The creation of the threads keeps the balance.
use kernel_io.Common.{
  ℕ, zero, suc, ◌+◌, ◌≤◌, ◌≡◌, ◌∙◌, sym, ap, refl, inl, inr, Bool-cases, Option, Option-cases, none,
  some, List, arith, length, length-set, length-replicate, get_elem?, get_elem?-set, lt-get_elem?,
  set, replicate, sum_of-set, done, >>=-eq-done, ok,
}
use kernel_io.Config.Types.{KioThreadConfig}
use kernel_io.Config.Ledger.{holds, held_by_threads, Balanced, create_files-counts}
use kernel_io.Config.Threads.{
  thread_attrs, create_files, or_put, set_kobj, kio_config_create_thread, create_threads, allocate,
  zeroed, scanned, is_configured, out_of_range, kio_num_threads_store,
}
use kernel_io.Config.Threads.Created.{create_files-frame}
use kernel_io.Kernel.{created, Kernel, Kio, log}

-- The threads from index `i` on hold nothing.
abbrev Fresh : ℕ → List KioThreadConfig → Type 0
Fresh i ths = (m : ℕ) (t : KioThreadConfig) → i ≤ m → get_elem? ths m ≡ some t → t.kobj ≡ none

or_put-none : (k : ℕ) (q : Option ℕ × Kio) (u : Kio) → or_put k q ≡ (none, u) → q ≡ (none, u)
or_put-none k (none, s) u h = h
or_put-none k (some e, s) u h = cc

set-Fresh :
    (i : ℕ) (t : KioThreadConfig) (ths : List KioThreadConfig)
    → Fresh i ths
    → Fresh (i + 1) (set ths i t)
set-Fresh i t ths fresh m u low e = elim (get_elem?-set ths i t m e) [
  | inl (same, new) ↦ absurd (omega arith)
  | inr (apart, old) ↦ fresh m u (omega arith) old
]

replicate-Fresh : (n i : ℕ) → Fresh i (replicate n zeroed)
replicate-Fresh zero i m t low e = cc
replicate-Fresh (suc n) i zero t low e = ground arith
replicate-Fresh (suc n) i (suc m) t low e = replicate-Fresh n 0 m t (omega arith) e

held_by-replicate : (k n : ℕ) → held_by_threads k (replicate n zeroed) ≡ 0
held_by-replicate k zero = refl
held_by-replicate k (suc n) = omega (arith, held_by-replicate k n)

module _ (kernel : Kernel) (b : Kio) where
  create_thread-Balanced :
      (i : ℕ) (s u : Kio) (ths : List KioThreadConfig) (t : KioThreadConfig)
      → s.config.threads ≡ some ths
      → get_elem? ths i ≡ some t
      → t.kobj ≡ none
      → kio_config_create_thread kernel i s ≡ done (none, u)
      → Balanced b s
      → (k : ℕ) × (u.config.threads ≡ some (set ths i (record t { kobj = some k }))) × Balanced b u
  unfolding kio_config_create_thread
  create_thread-Balanced i s u ths t at_threads at_i free made v =
      elim (Option-cases (kernel.kobject_create_and_add s.trace)) [
        | inl null ↦ ground arith
        | inr (k, got) ↦
            let s1 = log (created k) (set_kobj i t (some k) s) in
            let q = create_files kernel k thread_attrs s1 in
            let fine : q ≡ (none, u) = or_put-none k q u (ground arith) in
            let frame = create_files-frame kernel k thread_attrs s1 in
            let (c, p, a, f) = create_files-counts kernel k thread_attrs s1 in
            let threads : u.config.threads ≡ some (set ths i (record t { kobj = some k })) =
              ground arith in
            let module_kobj : u.kio_kobj ≡ s.kio_kobj = ground arith in
            (
              k,
              threads,
              record {
                kobjects = λ j.
                    let added =
                      sum_of-set (λ x. holds j x.kobj) ths i t (record t { kobj = some k }) at_i in
                    rw (threads, module_kobj) (ground (arith, v.kobjects j, c j, p j, added));
                memory = rw threads (ground (arith, v.memory, a, f));
              },
            )
      ]

  create_threads-Balanced :
      (count rounds i n : ℕ) (s s' : Kio) (ths : List KioThreadConfig)
      → s.config.threads ≡ some ths
      → i + rounds ≡ length ths
      → Fresh i ths
      → create_threads kernel count rounds i s ≡ done (ok n, s')
      → Balanced b s
      → Balanced b s'
  unfolding create_threads
  create_threads-Balanced count zero i n s s' ths at_threads full fresh run v =
      let same : s ≡ s' = ground arith in rw (sym same) v
  create_threads-Balanced count (suc rounds) i n s s' ths at_threads full fresh run v =
      let (q, made, rest) = >>=-eq-done (kio_config_create_thread kernel i s) _ run in
      let (t, at_i) = lt-get_elem? ths i (omega arith) in
      elim (Option-cases q.0) [
        | inr (n', failed) ↦ ground arith
        | inl fine ↦
            let (k, at_threads', v') =
              create_thread-Balanced i s q.1 ths t at_threads at_i (fresh i t (omega arith) at_i)
                (made ∙ ap (λ e. done (e, q.1)) fine) v in
            let t' = record t { kobj = some k } in
            create_threads-Balanced count rounds (i + 1) n q.1 s' (set ths i t') at_threads'
              (omega (arith, length-set ths i t')) (set-Fresh i t' ths fresh) (ground arith) v'
      ]

  -- A store into `num_threads` that succeeds keeps the balance.
  pub num_threads_store-Balanced :
      (sscanf : List ℕ → Option ℕ) (buf : List ℕ) (count n : ℕ) (s s' : Kio)
      → kio_num_threads_store kernel sscanf buf count s ≡ done (ok n, s')
      → Balanced b s
      → Balanced b s'
  unfolding kio_num_threads_store
  num_threads_store-Balanced sscanf buf count n s s' run v = elim (Bool-cases s.kio_running) [
    | inl busy ↦ ground arith
    | inr idle ↦ elim (Bool-cases (is_configured s)) [
      | inl old ↦ ground arith
      | inr new ↦
          let m = scanned (sscanf buf) in
          elim (Bool-cases (out_of_range kernel m)) [
            | inl bad ↦ ground arith
            | inr good ↦ elim (Bool-cases (kernel.kzalloc s.trace m)) [
              | inr no_memory ↦ ground arith
              | inl memory ↦
                  let null : s.config.threads ≡ none = ground arith in
                  create_threads-Balanced count m 0 n (allocate m s) s' (replicate m zeroed) refl
                    (omega (arith, length-replicate m zeroed)) (replicate-Fresh m 0) (ground arith)
                    (record {
                      kobjects =
                          λ k. omega (arith, rw null at (v.kobjects k), held_by-replicate k m);
                      memory = omega (arith, rw null at v.memory);
                    })
            ]
          ]
    ]
  ]
