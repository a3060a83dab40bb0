-- ===== src/Lib.antt =====
-- kernel-io is a Linux module that measures a block device: it is configured through sysfs, runs
-- a number of kernel threads that submit reads and writes of a page each, and reports latencies,
-- requests per second and bandwidth. This library models driver/kio_config.c,
-- driver/kio_config.h, driver/kio_run.c, driver/kio_io.h, driver/kio_io.c, driver/kio_main.c, and
-- what the driver uses of driver/kio_compat.h.
--
-- The parts, and where they are:
--
-- * Common has the words of 1, 8, 32 and 64 bits with their signed order and division, lists, and
--   what a C function does besides returning: Exec is a value or a fault, Result a value or an
--   error number.
-- * Config/Types is driver/kio_config.h, `struct kio_config` and `struct kio_thread_config`,
--   every number as the bit pattern of its field.
-- * Config/Valid is `kio_config_is_valid`, which a write to `run_workload` calls before it starts
--   a run and which caps each `offset_high` as it goes. Config/Valid/Verdict has its
--   specification in plain numbers, AcceptableConfig.
-- * Config/Vars is the sysfs files of one thread: `kio_thread_config_from_kobj`,
--   `kio_thread_var_show` and `kio_thread_var_store`.
-- * Config/Threads is `kio_num_threads_store` with `kio_config_create_thread` and
--   `kio_config_destroy_all_threads`; Config/Module is `kio_config_init` and `kio_config_exit`.
--   What they ask of the kernel, and the trace of what it granted, is in Kernel; Config/Ledger is
--   the count of what a trace has created and freed against what the configuration holds.
-- * Io/Device is `struct kio_io` and the test of an offset, of driver/kio_io.h; Io/Open is
--   `kio_io_init` and `kio_io_exit`, Io/Submit is `kio_io_submit`, and Io/Partition is the remap
--   to the disk on old kernels, of driver/kio_io.c.
-- * Run/Dir and Run/Offset are `kio_thread_next_dir` and `kio_thread_next_offset`, Run/Requests
--   what a thread submits with them, and Run/Completion `kio_bio_completion` and the tests of the
--   queue.
-- * Run/Loop is `kio_thread_fn` as a step relation: a state is where the thread stands with its
--   counters, the bios in flight and the pages; completions, stop requests and signals are steps
--   that may come between any two steps of the thread. Run/Teardown cuts the completion into the
--   steps that the thread and `kio_run` can see between, and has the `kfree` at the end of
--   `kio_run`.
-- * Run/Latency is where the start time of a bio is kept, and `kio_bio_get_latency` at the
--   completion of one bio after another.
-- * Run/Session is `kio_run` with each of its exits, and what `kthread_stop` leaves of a thread
--   given. Run/System is `kio_run` with its threads: a state holds the loops of the threads that
--   are started and where `kio_run` stands, and a step is one of `kio_run` or one of a thread;
--   memory and every `kthread_run` are granted. A completion is one step in Run/Loop and
--   Run/System; what it changes in between, and what the summary then misses, is in Run/Teardown.
--   Run/Stats is `kio_run_stats_thread` and `kio_run_stats_total`.
-- * Control is `kio_runtime_seconds_store` and `kio_run_workload_store`, and writes to all the
--   files one after another: the run and the configuration meet here; Control/Show is the reads
--   of the files. Control/Reached has the states that a module comes to from its initialisation
--   on. Here a handler is one piece. Control/Mutex has the three handlers that take the mutex,
--   called at the same time and cut into steps, and Control/Overlap a write to a variable, which
--   takes none, beside a write to `run_workload`.
-- * Main is `kio_init` and `kio_exit` of driver/kio_main.c; Main/Life has the states of a loaded
--   module, and Main/Unload the device closed while a run is under way: Run/Loop/Closed and
--   Run/System/Closed are the thread and the run after that.
-- * Compat/Random is the `prandom_u32` that driver/kio_compat.h has for old kernels, and
--   Compat/Version what it chooses by the kernel's version for the submission of a bio.
-- * Tests has the theorems at concrete inputs.
--
-- Pointers: `threads` is NULL or the list of the array's elements, a pointer into the array is an
-- index, and an access through NULL or past the end is a fault. A kobject is a number. The kernel
-- is built with wrapping signed arithmetic, so all arithmetic wraps. No definition has fuel: the
-- loops run over lists or count down, and the loop of a thread is the step relation, which has no
-- bound.
--
-- Parameters, with what is assumed of them at each theorem: `kstrtol`, `sscanf`, `sprintf`,
-- `is_power_of_2`, `num_online_cpus`, `usecs_to_jiffies`, random numbers, times, memory,
-- kobjects, sysfs files, `kthread_run`, the opening of a device and the block layer. That
-- `kthread_stop` returns is taken for granted in Run/Session; Run/Loop/Termination and Run/System
-- say when it does.
--
-- Not modelled: warnings and other output; `kio_config_exit` while a run is under way, behind the
-- `kio_io_exit` of Main/Unload; the shims of driver/kio_compat.h that rename kernel functions or
-- that no code of the driver calls, such as those for page faults and for the notifiers of
-- memory; kio.py, the scripts and the packaging.
pub mod Common
pub mod Kernel
pub mod Compat
pub mod Config
pub mod Io
pub mod Run
pub mod Control
pub mod Main
mod Tests
