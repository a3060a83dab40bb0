-- ===== src/Tests/Reruns.antt =====
-- A run that is repeated, and a thread that gives up.
use kernel_io.Common.{◌^◌, ◌≡◌, ◌⊎◌, inl, refl, true, false, some, arith, done, ok, All, enomem}
use mathlib.Core.List.{map}
use kernel_io.Config.Types.{IsAllocated}
use kernel_io.Config.Valid.Thread.{capped}
use kernel_io.Config.Valid.Verdict.{kio_config_is_valid_complete}
use kernel_io.Kernel.{Kio}
use kernel_io.Run.Completion.{kio_thread_too_busy}
use kernel_io.Run.Session.Outcomes.{OnePage, kio_run_completes}
use kernel_io.Run.Loop.{
  drain, is_error, LoopState, start_loop, Reach, start, next, enter, has_room, no_page, drained,
  leave,
}
use kernel_io.Run.Loop.Returns.{returned_unasked}
use kernel_io.Run.Loop.Ranges.{Ranges, Reach-Ranges}
use kernel_io.Run.Thread.{fresh_thread}
use kernel_io.Control.{to_run_workload, store}
use kernel_io.Control.Again.{run_workload_runs}
use kernel_io.Tests.Data.{power, device, sequential, two, config}
use kernel_io.Tests.Configs.{config-IsAllocated, config-AcceptableConfig}
use kernel_io.Tests.Lifecycle.{loaded, quiet}
use kernel_io.Tests.Writes.{outside, capped_config}

abbrev ran : Kio
ran = record loaded { config = capped_config }

capped-IsAllocated : IsAllocated capped_config (map (capped (2 ^ 30)) two)
capped-IsAllocated = record { allocated = refl; counted = refl; fits = omega arith }

capped-pages : All OnePage (map (capped (2 ^ 30)) two)
capped-pages = ground arith

first_run : store outside (to_run_workload 2) loaded ≡ done (ok 2, ran)
first_run =
    run_workload_runs outside (omega arith) loaded two config-IsAllocated 2 capped_config _ refl
      (kio_config_is_valid_complete power (2 ^ 30) 4 (omega arith) config two config-IsAllocated
        config-AcceptableConfig)
      (kio_run_completes quiet capped_config (map (capped (2 ^ 30)) two) capped-IsAllocated
        capped-pages false refl (λ i. refl))

-- No page for the first request.
abbrev begun : LoopState
begun = start_loop (fresh_thread 0 sequential)

abbrev gave_up : LoopState
gave_up = leave 5 (record begun { failed = some enomem; pc = drain })

gave_up-Reach : Reach device 0 sequential gave_up
unfolding kio_thread_too_busy
gave_up-Reach =
    next (next (next (next start (enter refl refl)) (has_room refl refl)) (no_page refl))
      (drained 5 refl (inl refl))

returned_unasked_example :
    (gave_up.emergency_stop ≡ true)
    × (is_error gave_up.failed ≡ true)
    × ((gave_up.signal ≡ true) ⊎ (gave_up.failed ≡ some enomem))
returned_unasked_example = returned_unasked (omega arith) (omega arith) gave_up-Reach refl refl

Reach-Ranges_example : Ranges sequential gave_up.th
Reach-Ranges_example = Reach-Ranges device sequential (omega arith) gave_up-Reach
