-- ===== src/Run/Completion/Pauses.antt =====
-- The pauses of a read-only workload.
use kernel_io.Common.{ℕ, ◌≤◌, ◌≡◌, ◌≢◌, false, List, [], ◌∷◌, arith, All}
use kernel_io.Config.Types.{KioThreadConfig}
use kernel_io.Run.Thread.{KioThread}
use kernel_io.Run.Dir.{Dir}
use kernel_io.Run.Dir.Bursts.{Idle, next_dirs, read_only_reads}
use kernel_io.Run.Completion.{no_pause, pause_after}

pause_after-read :
    (usecs_to_jiffies : ℕ → ℕ) (ktc : KioThreadConfig) (d : Dir)
    → ktc.burst_delay ≢ 0
    → d.dir_changed ≡ false
    → pause_after usecs_to_jiffies ktc d ≡ no_pause
unfolding pause_after
pause_after-read usecs_to_jiffies ktc d delay same = ground arith

no_pauses :
    (usecs_to_jiffies : ℕ → ℕ) (ktc : KioThreadConfig) (ds : List Dir)
    → ktc.burst_delay ≢ 0
    → All (λ d. (d.is_write ≡ false) × (d.new_burst ≡ false) × (d.dir_changed ≡ false)) ds
    → All (λ d. pause_after usecs_to_jiffies ktc d ≡ no_pause) ds
no_pauses usecs_to_jiffies ktc [] delay reads = tt
no_pauses usecs_to_jiffies ktc (d ∷ ds) delay reads = (
  pause_after-read usecs_to_jiffies ktc d delay reads.0.2,
  no_pauses usecs_to_jiffies ktc ds delay reads.1,
)

-- Between bursts, after a read, and with a percentage of 100 or more: if burst_delay is set, then
-- no later request is followed by a pause, whatever the sleeps are.
pub read_only_no_pauses :
    (usecs_to_jiffies : ℕ → ℕ) (rs : List ℕ) (th : KioThread)
    → Idle th
    → th.was_write ≡ false
    → 100 ≤ th.config.read_mix_percent
    → th.config.burst_delay ≢ 0
    → All (λ d. pause_after usecs_to_jiffies th.config d ≡ no_pause) (next_dirs rs th).0
read_only_no_pauses usecs_to_jiffies rs th idle was mix delay =
    no_pauses usecs_to_jiffies th.config (next_dirs rs th).0 delay
      (read_only_reads rs th idle was mix)
