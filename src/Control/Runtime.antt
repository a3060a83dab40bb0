-- ===== src/Control/Runtime.antt =====
-- The file `runtime_seconds`, over every history of writes.
use kernel_io.Common.{
  ℕ, ◌≤◌, ◌≡◌, ◌==◌, refl, Bool, false, ◌<◌, ◌^◌, Exec-cases, Bool-cases, inl, inr, none, some,
  Option-cases, List, arith, done, get_elem?, >>=-eq-done, Result, Result-cases, ok, err, eoverflow,
  u32, if◌then◌else◌,
}
use kernel_io.Config.Types.{KioConfig, cells}
use kernel_io.Config.Valid.Verdict.{kio_config_is_valid-total}
use kernel_io.Config.Vars.{
  VarIndex, kio_thread_var_store, kio_thread_config_from_kobj, store_at, write_var,
}
use kernel_io.Config.Threads.{scanned}
use kernel_io.Config.Threads.Created.{create_files-frame}
use kernel_io.Config.Threads.Frames.{num_threads_store-Kept}
use kernel_io.Config.Module.{module_attrs, with_module_kobj, kio_config_init}
use kernel_io.Kernel.{Kernel, Kio, created, log}
use kernel_io.Run.Session.{kio_run}
use kernel_io.Control.{
  Outside, Write, to_num_threads, to_runtime_seconds, to_run_workload, to_var,
  kio_runtime_seconds_store, kio_run_workload_store, store,
}
use kernel_io.Control.Safety.{WellFormed, Trusted}
use kernel_io.Control.Reached.{Reached, initialised, written, Reached-WellFormed}
use kernel_io.Control.Show.{from_runtime_seconds, show}

store_at-runtime :
    (kstrtol : List ℕ → Result ℕ) (c : KioConfig) (i : ℕ) (buf : List ℕ) (count : ℕ)
    (var_index : VarIndex) (r : Result ℕ × KioConfig)
    → store_at kstrtol c i buf count var_index ≡ done r
    → r.1.runtime_seconds ≡ c.runtime_seconds
unfolding store_at
store_at-runtime kstrtol c i buf count var_index r h = elim (Result-cases (kstrtol buf)) [
  | inl (e, bad) ↦ ground arith
  | inr (v, good) ↦ elim (Option-cases (get_elem? (cells c.threads) i)) [
    | inl past ↦ ground arith
    | inr (t, there) ↦ elim (Result-cases (write_var var_index v t)) [
      | inl (e, bad) ↦ ground arith
      | inr (t', fine) ↦ ground arith
    ]
  ]
]

var_store-runtime :
    (kstrtol : List ℕ → Result ℕ) (running : Bool) (c : KioConfig) (kobj : ℕ) (buf : List ℕ)
    (count : ℕ) (var_index : VarIndex) (r : Result ℕ × KioConfig)
    → kio_thread_var_store kstrtol running c kobj buf count var_index ≡ done r
    → r.1.runtime_seconds ≡ c.runtime_seconds
unfolding kio_thread_var_store
var_store-runtime kstrtol running c kobj buf count var_index r h = elim (Bool-cases running) [
  | inl busy ↦ ground arith
  | inr idle ↦ elim (Exec-cases (kio_thread_config_from_kobj c kobj)) [
    | inl faults ↦ ground arith
    | inr (ktc, found) ↦ elim (Option-cases ktc) [
      | inl null ↦ ground arith
      | inr (i, there) ↦ store_at-runtime kstrtol c i buf count var_index r (ground arith)
    ]
  ]
]

module _ (o : Outside) (trusted : Trusted o) where
  scanned-lt : (buf : List ℕ) → scanned (o.sscanf buf) < 2 ^ 32
  scanned-lt buf = elim (Option-cases (o.sscanf buf)) [
    | inl nothing ↦ rw nothing (omega arith)
    | inr (n, there) ↦ rw there (trusted.sscanf_fits buf n there)
  ]

  run_workload-runtime :
      (count : ℕ) (s : Kio) (r : Result ℕ × Kio)
      → WellFormed s
      → kio_run_workload_store o count s ≡ done r
      → r.1.config.runtime_seconds ≡ s.config.runtime_seconds
  unfolding kio_run_workload_store
  run_workload-runtime count s r (inl null) h = ground arith
  run_workload-runtime count s r (inr (ths, a)) h = elim (Bool-cases s.kio_running) [
    | inl busy ↦ ground arith
    | inr idle ↦
        let (good, ths', checked, low) =
          kio_config_is_valid-total o.is_power_of_2 o.dev_size o.kernel.num_online_cpus
            trusted.dev_fits s.config ths a in
        elim (Bool-cases good) [
          | inr bad ↦ ground (arith, a.allocated)
          | inl fine ↦
              elim (Exec-cases
                (kio_run o.env (record s.config { threads = some ths' }) s.kio_running)) [
                  | inl faults ↦ ground (arith, a.allocated)
                  | inr (q, runs) ↦ ground (arith, a.allocated)
                ]
        ]
  ]

  store-runtime :
      (w : Write) (s : Kio) (r : Result ℕ × Kio)
      → WellFormed s
      → s.config.runtime_seconds ≤ 3600
      → store o w s ≡ done r
      → r.1.config.runtime_seconds ≤ 3600
  unfolding store kio_runtime_seconds_store
  store-runtime (to_num_threads buf count) s r wf low h =
      let (same, _) = num_threads_store-Kept o.kernel o.sscanf buf count s r h in omega arith
  store-runtime (to_runtime_seconds buf count) s r wf low h = ground (arith, scanned-lt buf)
  store-runtime (to_run_workload count) s r wf low h =
      let same = run_workload-runtime count s r wf h in omega arith
  store-runtime (to_var kobj var_index buf count) s r wf low h =
      let (q, stored, rest) =
        >>=-eq-done (kio_thread_var_store o.kstrtol s.kio_running s.config kobj buf count var_index)
          _ h in
      let same =
        var_store-runtime o.kstrtol s.kio_running s.config kobj buf count var_index q stored in
      ground arith

init-runtime :
    (kernel : Kernel) (before s : Kio)
    → kio_config_init kernel before ≡ (none, s)
    → s.config.runtime_seconds ≡ 0
unfolding kio_config_init
init-runtime kernel before s h = elim (Option-cases (kernel.kobject_create_and_add before.trace)) [
  | inl null ↦ ground arith
  | inr (k, made) ↦
      let s1 = log (created k) (with_module_kobj (some k) before) in
      ground (arith, create_files-frame kernel k module_attrs s1)
]

pub Reached-runtime : (s : Kio) → Reached s → s.config.runtime_seconds ≤ 3600
Reached-runtime s (initialised kernel before h) = omega (arith, init-runtime kernel before s h)
Reached-runtime s (written o w {s = s0} r trusted reached served run) =
    store-runtime o trusted w s0 (r, s) (Reached-WellFormed s0 reached) (Reached-runtime s0 reached)
      run

-- What a shown time is answered with when it is written: an error before the first time is set.
abbrev pub written_back : Kio → (count : ℕ) → Result ℕ
written_back s count = if s.config.runtime_seconds == 0 then err eoverflow else ok (u32 count)

module _ (o : Outside) (sprintf_d sprintf_ld : ℕ → List ℕ) where
  -- In every state that the module reaches from a successful kio_config_init by writes to its
  -- files, with no run under way: a read of runtime_seconds returns a text, and to write that
  -- text back leaves the module as it was, with success, or with EOVERFLOW as long as the time is
  -- 0, provided that sscanf reads back what sprintf prints of the numbers up to 3600. Conditions
  -- of the writes: sscanf returns 32-bit numbers and kstrtol 64-bit ones, the size of the device
  -- is a 64-bit number, every kthread_run succeeds and every kthread_stop returns, and the file
  -- of a variable is written to only while threads are allocated.
  pub runtime_written_back :
      (s : Kio)
      → Reached s
      → s.kio_running ≡ false
      → ((n : ℕ) → n ≤ 3600 → o.sscanf (sprintf_d n) ≡ some n)
      → (count : ℕ)
      → (text : List ℕ) × (show sprintf_d sprintf_ld from_runtime_seconds s ≡ done (ok text))
        × (store o (to_runtime_seconds text count) s ≡ done (written_back s count, s))
  unfolding show store kio_runtime_seconds_store
  runtime_written_back s reached idle reads count =
      let low = Reached-runtime s reached in
      (sprintf_d s.config.runtime_seconds, refl, ground (arith, reads s.config.runtime_seconds))
