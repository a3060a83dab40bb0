-- ===== src/Io/Open/Ledger.antt =====
-- What is held after a trace of acquisitions and releases.
use kernel_io.Common.{
  ℕ, ◌+◌, ◌-◌, ◌||◌, not, Bool, true, false, Option, none, some, List, [], ◌∷◌, ◌==◌, if◌then◌else◌,
}
use kernel_io.Io.Open.{
  DevEvent, duplicated, freed_name, opened, closed, bio_set_up, bio_set_released,
}

-- How many names, the device that is open, and whether the set of bios is set up.
pub record Held : Type 0 where
  pub names : ℕ
  pub bdev : Option ℕ
  pub bio_set : Bool

abbrev pub nothing : Held
nothing = record { names = 0; bdev = none; bio_set = false }

abbrev pub all_of : ℕ → Held
all_of bdev = record { names = 1; bdev = some bdev; bio_set = true }

-- None if the event is not allowed: a second device or set of bios, the release of a name or device
-- that is not held, or of a name at a pointer that was not allocated.
abbrev pub settle : DevEvent → Held → Option Held
settle duplicated h = some (record h { names = h.names + 1 })
settle (freed_name skipped) h =
    if not (skipped == 0) || h.names == 0 then none else some (record h { names = h.names - 1 })
settle (opened bdev) h = elim h.bdev [ none ↦ some (record h { bdev = some bdev }) | some _ ↦ none ]
settle (closed bdev) h = elim h.bdev [
  | none ↦ none
  | some b ↦ if b == bdev then some (record h { bdev = none }) else none
]
settle bio_set_up h = if h.bio_set then none else some (record h { bio_set = true })
settle bio_set_released h = some (record h { bio_set = false })

abbrev pub settle_after : DevEvent → Option Held → Option Held
settle_after e none = none
settle_after e (some h) = settle e h

unfoldable pub ledger : List DevEvent → Option Held
ledger [] = some nothing
ledger (e ∷ es) = settle_after e (ledger es)
