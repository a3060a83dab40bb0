-- ===== src/Config/Threads.antt =====
-- Creating and destroying the threads' directories, and the file `num_threads`
-- (driver/kio_config.c). A handler is one piece here, which the mutex makes it: Control/Mutex.
pub mod Destroy
pub mod Created
pub mod Create
pub mod Failure
pub mod Frames
use kernel_io.Common.{
  ℕ, zero, suc, ◌+◌, ◌-◌, ◌^◌, Bool, true, false, not, ◌||◌, Option, none, some, List, [], ◌∷◌, ltb,
  ◌==◌, if◌then◌else◌, get_elem?, set, replicate, Exec, done, ◌>>=◌, load, Result, ok, err, enomem,
  ebusy, eexist, einval, u32, slt32,
}
use kernel_io.Config.Types.{KioThreadConfig, KioConfig, cells, set_cells}
use kernel_io.Config.Vars.{
  kio_block_size, kio_queue_depth, kio_offset_random, kio_offset_stride, kio_offset_low,
  kio_offset_high, kio_read_mix_percent, kio_burst_delay, kio_burst_finish, kio_read_burst,
  kio_write_burst, kio_read_sleep_usec, kio_write_sleep_usec,
}
use kernel_io.Kernel.{Attr, var, Event, created, filed, put, zalloc, freed, Kernel, Kio, log}

-- What `kzalloc` makes of a thread.
abbrev pub zeroed : KioThreadConfig
zeroed = record {
  kobj = none;
  offset_low = 0;
  offset_high = 0;
  block_size = 0;
  queue_depth = 0;
  offset_stride = 0;
  offset_random = 0;
  burst_delay = 0;
  burst_finish = 0;
  read_mix_percent = 0;
  read_burst = 0;
  write_burst = 0;
  read_sleep_usec = 0;
  write_sleep_usec = 0;
}

abbrev pub set_threads : Option (List KioThreadConfig) → Kio → Kio
set_threads ths s = record s { config = record s.config { threads = ths } }

-- `kio_config.threads[i].kobj = kobj`
abbrev pub set_kobj : ℕ → KioThreadConfig → Option ℕ → Kio → Kio
set_kobj i t kobj s =
    set_threads
      (set_cells s.config.threads (set (cells s.config.threads) i (record t { kobj = kobj }))) s

-- The files of a thread, in the order of the `VAR_CREATE_FILE` lines.
abbrev pub thread_attrs : List Attr
thread_attrs =
    var kio_block_size
    ∷ var kio_queue_depth
    ∷ var kio_offset_random
    ∷ var kio_offset_stride
    ∷ var kio_offset_low
    ∷ var kio_offset_high
    ∷ var kio_read_mix_percent
    ∷ var kio_burst_delay
    ∷ var kio_burst_finish
    ∷ var kio_read_burst
    ∷ var kio_write_burst
    ∷ var kio_read_sleep_usec
    ∷ var kio_write_sleep_usec
    ∷ []

-- One step of the loop of `kio_config_destroy_all_threads`.
abbrev pub drop_kobj : ℕ → KioThreadConfig → Kio → Kio
drop_kobj i t s = elim t.kobj [ none ↦ s | some k ↦ set_kobj i t none (log (put k) s) ]

unfoldable pub destroy_threads : (rounds i : ℕ) → Kio → Exec Kio
destroy_threads zero i s = done s
destroy_threads (suc rounds) i s = load (get_elem? (cells s.config.threads) i) >>= λ t.
    destroy_threads rounds (i + 1) (drop_kobj i t s)

-- `kfree(kio_config.threads)`, which does nothing to NULL, and `threads = NULL`.
abbrev pub free_threads : Kio → Kio
free_threads s = set_threads none (elim s.config.threads [ none ↦ s | some _ ↦ log freed s ])

unfoldable pub kio_config_destroy_all_threads : Kio → Exec Kio
kio_config_destroy_all_threads s =
    destroy_threads s.config.num_threads 0 s >>= λ s'. done (free_threads s')

-- The label `error`.
abbrev pub or_put : ℕ → Option ℕ × Kio → Option ℕ × Kio
or_put kobj (none, s) = (none, s)
or_put kobj (some e, s) = (some e, log (put kobj) s)

abbrev pub is_set : Option (List KioThreadConfig) → Bool
is_set none = false
is_set (some _) = true

-- An int that `sscanf` has not set stays -1.
abbrev pub scanned : Option ℕ → ℕ
scanned none = 2 ^ 32 - 1
scanned (some n) = n

-- `kio_config.num_threads || kio_config.threads`
abbrev pub is_configured : Kio → Bool
is_configured s = not (s.config.num_threads == 0) || is_set s.config.threads

-- `num_threads < 1 || num_threads > num_online_cpus()`; the second comparison is unsigned.
abbrev pub out_of_range : Kernel → ℕ → Bool
out_of_range kernel n = slt32 n 1 || ltb kernel.num_online_cpus n

abbrev pub allocate : ℕ → Kio → Kio
allocate n s =
    log (zalloc n) (record s {
      config = record s.config { num_threads = n; threads = some (replicate n zeroed) };
    })

module _ (kernel : Kernel) where
  -- Files one after another, up to the first that fails.
  unfoldable pub create_files : ℕ → List Attr → Kio → Option ℕ × Kio
  create_files kobj [] s = (none, s)
  create_files kobj (a ∷ rest) s = elim (kernel.sysfs_create_file s.trace kobj a) [
    | none ↦ create_files kobj rest (log (filed kobj a) s)
    | some e ↦ (some e, s)
  ]

  -- None for 0, otherwise the error.
  unfoldable pub kio_config_create_thread : (tid : ℕ) → Kio → Exec (Option ℕ × Kio)
  kio_config_create_thread tid s = load (get_elem? (cells s.config.threads) tid) >>= λ ktc.
      elim (kernel.kobject_create_and_add s.trace) [
        | none ↦ done (some enomem, set_kobj tid ktc none s)
        | some k ↦
            done (
              or_put k
                (create_files k thread_attrs (log (created k) (set_kobj tid ktc (some k) s))))
      ]

  -- The loop of `kio_num_threads_store`. The count that is returned goes through an int.
  unfoldable pub create_threads : (count rounds i : ℕ) → Kio → Exec (Result ℕ × Kio)
  create_threads count zero i s = done (ok (u32 count), s)
  create_threads count (suc rounds) i s = kio_config_create_thread i s >>= λ r. elim r.0 [
    | none ↦ create_threads count rounds (i + 1) r.1
    | some e ↦ kio_config_destroy_all_threads r.1 >>= λ s'. done (err e, s')
  ]

  -- `sscanf` at "%du" is a parameter.
  unfoldable pub kio_num_threads_store :
      (sscanf : List ℕ → Option ℕ) → List ℕ → (count : ℕ) → Kio → Exec (Result ℕ × Kio)
  kio_num_threads_store sscanf buf count s =
      let n = scanned (sscanf buf) in
      if s.kio_running
      then done (err ebusy, s)
      else if is_configured s
      then done (err eexist, s)
      else if out_of_range kernel n
      then done (err einval, s)
      else if not (kernel.kzalloc s.trace n)
      then done (err enomem, s)
      else create_threads count n 0 (allocate n s)
