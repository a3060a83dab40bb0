-- ===== src/Control/Mutex/Rest.antt =====
-- What a handler under the mutex is still to do, as one piece.
use kernel_io.Common.{
  ℕ, zero, suc, ◌≡◌, not, ◌||◌, if◌then◌else◌, Exec, done, fault, ◌>>=◌, Result, ok, err, einval,
  enomem, eoverflow, u32, slt32, arith,
}
use kernel_io.Config.Types.{kio_max_runtime_seconds}
use kernel_io.Config.Valid.{kio_config_is_valid}
use kernel_io.Config.Threads.{
  scanned, out_of_range, allocate, create_threads, kio_config_destroy_all_threads,
  kio_num_threads_store,
}
use kernel_io.Kernel.{Kio}
use kernel_io.Run.Session.{kio_run}
use kernel_io.Control.{
  Outside, set_runtime_seconds, run_valid, store, kio_runtime_seconds_store, kio_run_workload_store,
}
use kernel_io.Control.Mutex.{
  sets_num_threads, sets_runtime_seconds, runs_workload, as_write, Body, locked, scans_threads,
  creates, destroys, scans_seconds, validates, runs, Next, go_on, unlock_and_return, body_step,
}

-- What the handler is still to do, as one piece.
abbrev pub rest : Outside → Body → Kio → Exec (Result ℕ × Kio)
rest o (locked call) s = store o (as_write call) s
rest o (scans_threads buf count) s =
    let n = scanned (o.sscanf buf) in
    if out_of_range o.kernel n
    then done (err einval, s)
    else if not (o.kernel.kzalloc s.trace n)
    then done (err enomem, s)
    else create_threads o.kernel count n 0 (allocate n s)
rest o (creates count rounds i) s = create_threads o.kernel count rounds i s
rest o (destroys e) s = kio_config_destroy_all_threads s >>= λ s'. done (err e, s')
rest o (scans_seconds buf count) s =
    let seconds = scanned (o.sscanf buf) in
    if slt32 seconds 1 || slt32 kio_max_runtime_seconds seconds
    then done (err eoverflow, s)
    else done (ok (u32 count), set_runtime_seconds seconds s)
rest o (validates count) s =
    kio_config_is_valid o.is_power_of_2 o.dev_size o.kernel.num_online_cpus s.config
    >>= run_valid o.env count s
rest o (runs count) s = kio_run o.env s.config s.kio_running >>= λ outcome.
    done (ok (u32 count), record s { kio_running = outcome.kio_running })

abbrev pub rest_of : Outside → Next → Kio → Exec (Result ℕ × Kio)
rest_of o (go_on b) s = rest o b s
rest_of o (unlock_and_return r) s = done (r, s)

-- A step leaves the handler what it had before it, less the step.
pub rest-body_step :
    (o : Outside) (b : Body) (s s' : Kio) (next : Next)
    → body_step o b s ≡ done (next, s')
    → rest o b s ≡ rest_of o next s'
unfolding body_step create_threads kio_num_threads_store kio_runtime_seconds_store
    kio_run_workload_store store
rest-body_step o (locked (sets_num_threads buf count)) s s' next run = ground arith
rest-body_step o (locked (sets_runtime_seconds buf count)) s s' next run = ground arith
rest-body_step o (locked (runs_workload count)) s s' next run = ground arith
rest-body_step o (scans_threads buf count) s s' next run = ground arith
rest-body_step o (creates count zero i) s s' next run = ground arith
rest-body_step o (creates count (suc rounds) i) s s' next run = ground arith
rest-body_step o (destroys e) s s' next run = ground arith
rest-body_step o (scans_seconds buf count) s s' next run = ground arith
rest-body_step o (validates count) s s' next run = ground arith
rest-body_step o (runs count) s s' next run = ground arith

-- A step that faults is a handler that faults.
pub rest-fault : (o : Outside) (b : Body) (s : Kio) → body_step o b s ≡ fault → rest o b s ≡ fault
unfolding body_step create_threads kio_num_threads_store kio_runtime_seconds_store
    kio_run_workload_store store
rest-fault o (locked (sets_num_threads buf count)) s run = ground arith
rest-fault o (locked (sets_runtime_seconds buf count)) s run = ground arith
rest-fault o (locked (runs_workload count)) s run = ground arith
rest-fault o (scans_threads buf count) s run = ground arith
rest-fault o (creates count zero i) s run = ground arith
rest-fault o (creates count (suc rounds) i) s run = ground arith
rest-fault o (destroys e) s run = ground arith
rest-fault o (scans_seconds buf count) s run = ground arith
rest-fault o (validates count) s run = ground arith
rest-fault o (runs count) s run = ground arith
