-- ===== src/Tests/Lifecycle.antt =====
-- Setting threads up, running them, and their statistics.
use kernel_io.Common.{
  ℕ, zero, suc, ◌^◌, ◌≤◌, ◌<◌, ◌≡◌, refl, true, false, Option, none, some, List, [], ◌∷◌, arith,
  All, length, u32, done, fault, Result, enomem, eintr,
}
use kernel_io.Config.Types.{IsAllocated}
use kernel_io.Kernel.{created, put, zalloc, freed, Kernel, Kio}
use kernel_io.Config.Threads.{
  allocate, zeroed, create_files, kio_config_create_thread, kio_num_threads_store,
}
use kernel_io.Config.Threads.Destroy.{destroy_all_threads-eq}
use kernel_io.Config.Threads.Create.{Setup, kio_num_threads_store-Setup}
use kernel_io.Config.Threads.Failure.{failed_thread_put_twice}
use kernel_io.Kernel.Ledger.{puts}
use kernel_io.Run.Thread.{KioThread, fresh_thread}
use kernel_io.Run.Stats.{no_stats, thread_report, sum_stats, kio_run_stats_total}
use kernel_io.Run.Stats.Totals.{thread_report_exact}
use kernel_io.Run.Stats.Averages.{total_iops_divided_twice}
use kernel_io.Run.Session.{Environment, kio_run}
use kernel_io.Run.Session.Outcomes.{OnePage, kio_run_stops_err_ptr}
use kernel_io.Tests.Data.{sequential, two, config}
use kernel_io.Tests.Configs.{config-IsAllocated}

-- A kernel of four processors in which a kobject is the length of the trace.
abbrev pub kernel : Kernel
kernel = record {
  num_online_cpus = 4;
  kobject_create_and_add = λ trace. some (length trace);
  sysfs_create_file = λ trace kobj attr. none;
  kzalloc = λ trace n. true;
}

-- The same without any sysfs file.
abbrev pub fileless : Kernel
fileless = record kernel { sysfs_create_file = λ trace kobj attr. some enomem }

-- Stands for `sscanf`: a text of one element is a number.
abbrev pub scan : List ℕ → Option ℕ
scan (v ∷ []) = some (u32 v)
scan _ = none

pub scan-lt : (buf : List ℕ) (n : ℕ) → scan buf ≡ some n → n < 2 ^ 32
scan-lt buf n h = ground arith

abbrev pub empty : Kio
empty = record {
  config = record { runtime_seconds = 5; num_threads = 0; threads = none };
  kio_kobj = some 0;
  kio_running = false;
  trace = [];
}

abbrev pub loaded : Kio
loaded = record empty { config = config }

kio_num_threads_store-Setup_example :
    (r : Result ℕ) × (s' : Kio) × (kio_num_threads_store kernel scan (2 ∷ []) 2 empty
      ≡ done (r, s'))
    × Setup kernel empty r s'
kio_num_threads_store-Setup_example =
    kio_num_threads_store-Setup kernel scan scan-lt empty (2 ∷ []) 2

abbrev one : Kio
one = allocate 1 empty

one-IsAllocated : IsAllocated one.config (zeroed ∷ [])
one-IsAllocated = record { allocated = refl; counted = refl; fits = omega arith }

abbrev without_files : Kio
without_files = record one {
  config = record one.config { threads = some (record zeroed { kobj = some 1 } ∷ []) };
  trace = put 1 ∷ created 1 ∷ zalloc 1 ∷ [];
}

abbrev destroyed : Kio
destroyed = record one {
  config = record one.config { threads = none };
  trace = freed ∷ put 1 ∷ put 1 ∷ created 1 ∷ zalloc 1 ∷ [];
}

no_files : kio_config_create_thread fileless 0 one ≡ done (some enomem, without_files)
unfolding kio_config_create_thread create_files
no_files = refl

failed_thread_put_twice_example : 2 ≤ puts 1 destroyed.trace
failed_thread_put_twice_example =
    failed_thread_put_twice fileless 0 12 1 one without_files destroyed (zeroed ∷ [])
      one-IsAllocated (omega arith) refl no_files
      (destroy_all_threads-eq (record zeroed { kobj = some 1 } ∷ []) without_files refl refl)

-- 1000 requests in two seconds.
abbrev ran : KioThread
ran = record (fresh_thread 0 sequential) {
  dispatched = 0;
  completed = 1000;
  slat_total = 5000000;
  clat_total = 70000000;
  runtime = 2000000000;
}

thread_report_exact_example :
    thread_report ran
    ≡ record { cnt = 1000; lat = 75000; slat = 5000; clat = 70000; iops = 500; bps = 2048000 }
thread_report_exact_example =
    thread_report_exact ran (omega arith) (omega arith) (omega arith) (omega arith) (omega arith)
      (omega arith) (omega arith)

-- Each of them does 500 a second, and so does the device 1000; the summary says 250.
total_iops_divided_twice_example :
    (kio_run_stats_total (sum_stats (ran ∷ ran ∷ []) no_stats)).iops ≡ 250
total_iops_divided_twice_example =
    total_iops_divided_twice 1000 2000000000 (ran ∷ ran ∷ []) (ground arith) (omega arith)
      (omega arith) (omega arith) (omega arith) (omega arith) (omega arith)

-- Every thread starts.
abbrev pub quiet : Environment
quiet = record {
  memory = true;
  kthread_run = λ i. none;
  emergency_stop = false;
  stopped = λ th. th;
}

abbrev pub no_memory : Environment
no_memory = record quiet { memory = false }

-- The second thread does not start.
abbrev alone : Environment
alone = record quiet { kthread_run = λ i. elim i [ zero ↦ none | suc _ ↦ some eintr ] }

pub pages : All OnePage two
pages = ground arith

kio_run_stops_err_ptr_example : kio_run alone config true ≡ fault
kio_run_stops_err_ptr_example =
    kio_run_stops_err_ptr alone config two config-IsAllocated pages true 1 eintr refl refl
      (omega arith) (omega arith) refl
