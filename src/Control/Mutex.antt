-- ===== src/Control/Mutex.antt =====
-- The handlers that take `kio_config.mutex` (driver/kio_config.c), called at the same time: those of
-- `num_threads`, `runtime_seconds` and `run_workload`, cut into steps at their tests, the creation
-- of each thread, and the calls of `kio_config_is_valid` and `kio_run`. `kio_thread_var_store` takes
-- no mutex: Control/Overlap.
pub mod Rest
pub mod Serial
pub mod Bounds
pub mod Returns
pub mod Quiet
use kernel_io.Common.{
  ℕ, zero, suc, ◌+◌, ◌≡◌, Bool, not, ◌||◌, Option, none, some, List, [], ◌∷◌, ◌==◌, get_elem?, set,
  replicate, length, if◌then◌else◌, Exec, done, ◌>>=◌, Result, ok, err, ebusy, eexist, einval,
  enomem, echild, enoexec, eoverflow, u32, slt32,
}
use kernel_io.Config.Types.{kio_max_runtime_seconds}
use kernel_io.Config.Valid.{kio_config_is_valid}
use kernel_io.Config.Threads.{
  is_set, scanned, is_configured, out_of_range, allocate, kio_config_create_thread,
  kio_config_destroy_all_threads,
}
use kernel_io.Kernel.{Kio}
use kernel_io.Run.Session.{kio_run}
use kernel_io.Control.{
  Outside, set_runtime_seconds, Write, to_num_threads, to_runtime_seconds, to_run_workload,
}

-- A write to one of the three files.
pub data Call : Type 0 where
  sets_num_threads : List ℕ → (count : ℕ) → Call
  sets_runtime_seconds : List ℕ → (count : ℕ) → Call
  runs_workload : (count : ℕ) → Call

abbrev pub as_write : Call → Write
as_write (sets_num_threads buf count) = to_num_threads buf count
as_write (sets_runtime_seconds buf count) = to_runtime_seconds buf count
as_write (runs_workload count) = to_run_workload count

-- Where a handler stands between `mutex_lock` and its label.
pub data Body : Type 0 where
  locked : Call → Body
  scans_threads : List ℕ → (count : ℕ) → Body
  creates : (count rounds i : ℕ) → Body
  destroys : (result : ℕ) → Body
  scans_seconds : List ℕ → (count : ℕ) → Body
  validates : (count : ℕ) → Body
  runs : (count : ℕ) → Body

-- It goes on, or has come to `unlock_and_return_result`.
pub data Next : Type 0 where
  go_on : Body → Next
  unlock_and_return : Result ℕ → Next

-- The steps of `kio_num_threads_store`: the tests of what is there, the allocation, and one thread.
abbrev pub test_num_threads : List ℕ → (count : ℕ) → Kio → Next × Kio
test_num_threads buf count s =
    if s.kio_running
    then (unlock_and_return (err ebusy), s)
    else if is_configured s
    then (unlock_and_return (err eexist), s)
    else (go_on (scans_threads buf count), s)

abbrev pub allocate_threads : Outside → List ℕ → (count : ℕ) → Kio → Next × Kio
allocate_threads o buf count s =
    let n = scanned (o.sscanf buf) in
    if out_of_range o.kernel n
    then (unlock_and_return (err einval), s)
    else if not (o.kernel.kzalloc s.trace n)
    then (unlock_and_return (err enomem), s)
    else (go_on (creates count n 0), allocate n s)

abbrev pub create_next : Outside → (count rounds i : ℕ) → Kio → Exec (Next × Kio)
create_next o count zero i s = done (unlock_and_return (ok (u32 count)), s)
create_next o count (suc rounds) i s = kio_config_create_thread o.kernel i s >>= λ r. elim r.0 [
  | none ↦ done (go_on (creates count rounds (i + 1)), r.1)
  | some e ↦ done (go_on (destroys e), r.1)
]

-- The steps of `kio_runtime_seconds_store`.
abbrev pub test_runtime_seconds : List ℕ → (count : ℕ) → Kio → Next × Kio
test_runtime_seconds buf count s =
    if s.kio_running
    then (unlock_and_return (err ebusy), s)
    else (go_on (scans_seconds buf count), s)

abbrev pub assign_runtime_seconds : Outside → List ℕ → (count : ℕ) → Kio → Next × Kio
assign_runtime_seconds o buf count s =
    let seconds = scanned (o.sscanf buf) in
    if slt32 seconds 1 || slt32 kio_max_runtime_seconds seconds
    then (unlock_and_return (err eoverflow), s)
    else (unlock_and_return (ok (u32 count)), set_runtime_seconds seconds s)

-- The steps of `kio_run_workload_store`.
abbrev pub test_run_workload : (count : ℕ) → Kio → Next × Kio
test_run_workload count s =
    if s.kio_running
    then (unlock_and_return (err ebusy), s)
    else if s.config.num_threads == 0 || not (is_set s.config.threads)
    then (unlock_and_return (err echild), s)
    else (go_on (validates count), s)

abbrev pub validate : Outside → (count : ℕ) → Kio → Exec (Next × Kio)
validate o count s =
    kio_config_is_valid o.is_power_of_2 o.dev_size o.kernel.num_online_cpus s.config >>= λ v.
    let s' = record s { config = v.1 } in
    if not v.0 then done (unlock_and_return (err enoexec), s') else done (go_on (runs count), s')

abbrev pub run_and_report : Outside → (count : ℕ) → Kio → Exec (Next × Kio)
run_and_report o count s = kio_run o.env s.config s.kio_running >>= λ outcome.
    done (unlock_and_return (ok (u32 count)), record s { kio_running = outcome.kio_running })

unfoldable pub body_step : Outside → Body → Kio → Exec (Next × Kio)
body_step o (locked (sets_num_threads buf count)) s = done (test_num_threads buf count s)
body_step o (locked (sets_runtime_seconds buf count)) s = done (test_runtime_seconds buf count s)
body_step o (locked (runs_workload count)) s = done (test_run_workload count s)
body_step o (scans_threads buf count) s = done (allocate_threads o buf count s)
body_step o (creates count rounds i) s = create_next o count rounds i s
body_step o (destroys e) s =
    kio_config_destroy_all_threads s >>= λ s'. done (unlock_and_return (err e), s')
body_step o (scans_seconds buf count) s = done (assign_runtime_seconds o buf count s)
body_step o (validates count) s = validate o count s
body_step o (runs count) s = run_and_report o count s

pub data Place : Type 0 where
  calling : Place
  holding : Next → Place
  returned : Result ℕ → Place

-- Who holds the mutex, if anyone, and where each handler stands.
pub record Callers : Type 0 where
  pub kio : Kio
  pub owner : Option ℕ
  pub places : List Place

abbrev pub all_calling : ℕ → Kio → Callers
all_calling n s = record { kio = s; owner = none; places = replicate n calling }

-- Each call has its own world outside.
pub data CallersStep (calls : List (Outside × Call)) (s : Callers) : Callers → Type 0 where
  mutex_lock :
      (k : ℕ) (o : Outside) (call : Call)
      → s.owner ≡ none
      → get_elem? calls k ≡ some (o, call)
      → get_elem? s.places k ≡ some calling
      → CallersStep calls s
          (record s { owner = some k; places = set s.places k (holding (go_on (locked call))) })
  inside :
      (k : ℕ) (o : Outside) (call : Call) (b : Body) (next : Next) (kio : Kio)
      → s.owner ≡ some k
      → get_elem? calls k ≡ some (o, call)
      → get_elem? s.places k ≡ some (holding (go_on b))
      → body_step o b s.kio ≡ done (next, kio)
      → CallersStep calls s (record s { kio = kio; places = set s.places k (holding next) })
  mutex_unlock :
      (k : ℕ) (r : Result ℕ)
      → s.owner ≡ some k
      → get_elem? s.places k ≡ some (holding (unlock_and_return r))
      → CallersStep calls s (record s { owner = none; places = set s.places k (returned r) })

-- What the handlers come to from the state of the module when they are called.
pub data CallersReach (calls : List (Outside × Call)) (kio : Kio) : Callers → Type 0 where
  at_start : CallersReach calls kio (all_calling (length calls) kio)
  after :
      {s s' : Callers}
      → CallersReach calls kio s
      → CallersStep calls s s'
      → CallersReach calls kio s'
