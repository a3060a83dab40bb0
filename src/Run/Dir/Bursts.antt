-- ===== src/Run/Dir/Bursts.antt =====
-- Bursts have the length that the configuration asks for, and a read-only workload only reads.
use kernel_io.Common.{
  ℕ, ◌%◌, ◌≤◌, ◌<◌, ◌≡◌, ◌⊎◌, refl, Bool, true, false, List, [], ◌∷◌, arith, length, All, leb,
  Bool-cases, inl, inr,
}
use kernel_io.Run.Thread.{KioThread}
use kernel_io.Run.Dir.{Dir, kio_thread_next_dir}

-- One call after another, each with the random number that it is offered.
pub next_dirs : List ℕ → KioThread → List Dir × KioThread
next_dirs [] th = ([], th)
next_dirs (r ∷ rs) th =
    let (d, th') = kio_thread_next_dir r th in let (ds, th'') = next_dirs rs th' in (d ∷ ds, th'')

-- Within a burst: the same direction, and no new burst.
abbrev pub Continues : Bool → Dir → Type 0
Continues w d = (d.is_write ≡ w) × (d.new_burst ≡ false)

read_burst_runs :
    (rs : List ℕ) (th : KioThread)
    → length rs ≡ th.read_burst
    → All (Continues false) (next_dirs rs th).0
      × ((next_dirs rs th).1.read_burst ≡ 0)
      × ((next_dirs rs th).1.write_burst ≡ th.write_burst)
unfolding next_dirs kio_thread_next_dir
read_burst_runs [] th h = ground arith
read_burst_runs (r ∷ rs) th h = ground (arith, read_burst_runs rs (kio_thread_next_dir r th).1)

write_burst_runs :
    (rs : List ℕ) (th : KioThread)
    → length rs ≡ th.write_burst
    → th.read_burst ≡ 0
    → All (Continues true) (next_dirs rs th).0
      × ((next_dirs rs th).1.write_burst ≡ 0)
      × ((next_dirs rs th).1.read_burst ≡ 0)
unfolding next_dirs kio_thread_next_dir
write_burst_runs [] th h k = ground arith
write_burst_runs (r ∷ rs) th h k = ground (arith, write_burst_runs rs (kio_thread_next_dir r th).1)

-- Between two bursts.
abbrev pub Idle : KioThread → Type 0
Idle th = (th.read_burst ≡ 0) × (th.write_burst ≡ 0)

read_burst_length :
    (th : KioThread) (r : ℕ) (rs : List ℕ)
    → Idle th
    → th.config.read_mix_percent < 100
    → r % 100 < th.config.read_mix_percent
    → length (r ∷ rs) ≡ th.config.read_burst
    → let (ds, th') = next_dirs (r ∷ rs) th in
      (d : Dir) × (rest : List Dir) × (ds ≡ d ∷ rest)
      × (d.is_write ≡ false)
      × (d.new_burst ≡ true)
      × All (Continues false) rest
      × Idle th'
unfolding next_dirs kio_thread_next_dir
read_burst_length th r rs idle mix low len =
    let th' = (kio_thread_next_dir r th).1 in
    let runs = read_burst_runs rs th' (ground arith) in
    (
      (kio_thread_next_dir r th).0,
      (next_dirs rs th').0,
      refl,
      ground arith,
      ground arith,
      runs.0,
      (runs.1, ground (arith, runs.2)),
    )

write_burst_length :
    (th : KioThread) (r : ℕ) (rs : List ℕ)
    → Idle th
    → 0 < th.config.read_mix_percent
    → th.config.read_mix_percent ≤ r % 100
    → length (r ∷ rs) ≡ th.config.write_burst
    → let (ds, th') = next_dirs (r ∷ rs) th in
      (d : Dir) × (rest : List Dir) × (ds ≡ d ∷ rest)
      × (d.is_write ≡ true)
      × (d.new_burst ≡ true)
      × All (Continues true) rest
      × Idle th'
unfolding next_dirs kio_thread_next_dir
write_burst_length th r rs idle mix high len =
    let th' = (kio_thread_next_dir r th).1 in
    let runs = write_burst_runs rs th' (ground arith) (ground arith) in
    (
      (kio_thread_next_dir r th).0,
      (next_dirs rs th').0,
      refl,
      ground arith,
      ground arith,
      runs.0,
      (runs.2, runs.1),
    )

-- The burst that the random number starts, and how many requests the configuration asks of it.
abbrev pub starts_write : ℕ → KioThread → Bool
starts_write r th = leb th.config.read_mix_percent (r % 100)

abbrev pub asked : Bool → KioThread → ℕ
asked true th = th.config.write_burst
asked false th = th.config.read_burst

-- Between bursts and with a percentage of reads above 0 and below 100, the random number starts a
-- burst, of writes if its remainder by 100 is at least the percentage and of reads otherwise: as
-- many calls of kio_thread_next_dir as write_burst or read_burst asks for return that direction,
-- only the first of them reports a new burst, and then the thread is between bursts again.
pub burst_length :
    (th : KioThread) (r : ℕ) (rs : List ℕ)
    → Idle th
    → 0 < th.config.read_mix_percent
    → th.config.read_mix_percent < 100
    → length (r ∷ rs) ≡ asked (starts_write r th) th
    → let (ds, th') = next_dirs (r ∷ rs) th in
      (d : Dir) × (rest : List Dir) × (ds ≡ d ∷ rest)
      × (d.is_write ≡ starts_write r th)
      × (d.new_burst ≡ true)
      × All (Continues (starts_write r th)) rest
      × Idle th'
burst_length th r rs idle some_reads some_writes len = elim (Bool-cases (starts_write r th)) [
  | inl write ↦
      rw write (write_burst_length th r rs idle some_reads (ground arith) (rw write at len))
  | inr read ↦ rw read (read_burst_length th r rs idle some_writes (ground arith) (rw read at len))
]

-- Between bursts, after a read, and with a percentage of 100 or more, every later call of
-- kio_thread_next_dir returns a read, and none reports a new burst or a change of direction.
pub read_only_reads :
    (rs : List ℕ) (th : KioThread)
    → Idle th
    → th.was_write ≡ false
    → 100 ≤ th.config.read_mix_percent
    → All
        (λ d. (d.is_write ≡ false) × (d.new_burst ≡ false) × (d.dir_changed ≡ false))
        (next_dirs rs th).0
unfolding next_dirs kio_thread_next_dir
read_only_reads [] th idle was mix = tt
read_only_reads (r ∷ rs) th idle was mix =
    ground (arith, read_only_reads rs (kio_thread_next_dir r th).1)

-- Between bursts and with a percentage of 0, every later call of kio_thread_next_dir returns a
-- write, and none reports a new burst.
pub write_only_writes :
    (rs : List ℕ) (th : KioThread)
    → Idle th
    → th.config.read_mix_percent ≡ 0
    → All (λ d. (d.is_write ≡ true) × (d.new_burst ≡ false)) (next_dirs rs th).0
unfolding next_dirs kio_thread_next_dir
write_only_writes [] th idle mix = tt
write_only_writes (r ∷ rs) th idle mix =
    ground (arith, write_only_writes rs (kio_thread_next_dir r th).1)

-- At most one burst is under way, and what is left of it is less than the configuration asks for.
pub record BurstsOk (th : KioThread) : Type 0 where
  pub one : (th.read_burst ≡ 0) ⊎ (th.write_burst ≡ 0)
  pub reads_left : th.read_burst ≤ th.config.read_burst
  pub writes_left : th.write_burst ≤ th.config.write_burst

-- kio_thread_next_dir keeps the invariant that at most one burst is under way and that what is
-- left of each is at most what the configuration asks for.
pub kio_thread_next_dir-BurstsOk :
    (r : ℕ) (th : KioThread) → BurstsOk th → BurstsOk (kio_thread_next_dir r th).1
unfolding kio_thread_next_dir
kio_thread_next_dir-BurstsOk r th b = ground arith

-- Choosing a direction leaves the configuration and the offset alone.
pub next_dir_frame :
    (r : ℕ) (th : KioThread)
    → ((kio_thread_next_dir r th).1.config ≡ th.config)
      × ((kio_thread_next_dir r th).1.next_offset ≡ th.next_offset)
      × ((kio_thread_next_dir r th).1.dispatched ≡ th.dispatched)
unfolding kio_thread_next_dir
next_dir_frame r th = ground arith
