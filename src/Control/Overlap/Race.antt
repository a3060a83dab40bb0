-- ===== src/Control/Overlap/Race.antt =====
-- A run of a configuration that validation rejects.
use kernel_io.Common.{
  ℕ, ◌^◌, ◌<◌, ◌≡◌, inl, inr, refl, sym, ap, Bool-cases, true, false, some, List, [], arith, All,
  All-set, All-get_elem?, get_elem?, set, get_elem?-set_self, get_elem?-lt, done, ok, u32,
}
use kernel_io.Config.Types.{KioThreadConfig, KioConfig, IsAllocated, cells}
use kernel_io.Config.Valid.{kio_config_is_valid}
use kernel_io.Config.Valid.Thread.{Acceptable}
use kernel_io.Config.Valid.Verdict.{kio_config_is_valid-total, kio_config_is_valid_sound}
use kernel_io.Config.Vars.{kio_queue_depth, kio_thread_var_store, write_var}
use kernel_io.Config.Vars.Handlers.{Stored, store-Stores, store-IsAllocated}
use kernel_io.Run.Session.{check_block_sizes}
use kernel_io.Run.Session.Outcomes.{OnePage, check_block_sizes-true}
use kernel_io.Control.{Outside}
use kernel_io.Config.Valid.Lowered.{AllLowered-IsAllocated}
use kernel_io.Control.Overlap.{
  waiting, launched, outside, stored, check, launch, test, assign, Overlaps, here, more,
}

module _ (o : Outside) (dev_fits : o.dev_size < 2 ^ 64)
    (fits : (buf : List ℕ) (v : ℕ) → o.kstrtol buf ≡ ok v → v < 2 ^ 64) where
  -- Without a queue depth a configuration is rejected.
  depthless_rejected :
      (c : KioConfig) (ths : List KioThreadConfig) (i : ℕ) (t : KioThreadConfig)
      → IsAllocated c ths
      → get_elem? ths i ≡ some t
      → t.queue_depth ≡ 0
      → (c' : KioConfig) × (kio_config_is_valid o.is_power_of_2 o.dev_size o.kernel.num_online_cpus
            c
          ≡ done (false, c'))
  depthless_rejected c ths i t a at_i depth =
      let (good, ths', run, low) =
        kio_config_is_valid-total o.is_power_of_2 o.dev_size o.kernel.num_online_cpus dev_fits c ths
          a in
      elim (Bool-cases good) [
        | inr bad ↦ (record c { threads = some ths' }, rw bad at run)
        | inl accepted ↦
            let acceptable =
              kio_config_is_valid_sound o.is_power_of_2 o.dev_size o.kernel.num_online_cpus dev_fits
                c ths a (record c { threads = some ths' }) (rw accepted at run) in
            let own =
              All-get_elem? (Acceptable o.is_power_of_2 o.dev_size) ths i acceptable.each at_i in
            absurd (omega (arith, own.depth_min))
      ]

  -- What a store of a multiple of 2 ^ 32 into `queue_depth` leaves is rejected.
  module _ (c c' : KioConfig) (ths : List KioThreadConfig) (kobj : ℕ) (buf : List ℕ) (count v : ℕ)
      (a : IsAllocated c ths) (parsed : o.kstrtol buf ≡ ok v) (zero_depth : u32 v ≡ 0) where
    Stored-depth :
        (s : Stored o.kstrtol (λ m. buf) c ths kobj buf kio_queue_depth c')
        → (get_elem? (set ths s.index s.new) s.index ≡ some s.new) × (s.new.queue_depth ≡ 0)
    unfolding write_var
    Stored-depth s =
        let value : s.value ≡ v = cc in
        let new : s.new ≡ record s.old { queue_depth = u32 s.value } = cc in
        (get_elem?-set_self ths s.index s.new (get_elem?-lt ths s.index s.there), ground arith)

    Stored-rejected :
        (ths' : List KioThreadConfig)
        → IsAllocated c' ths'
        → Stored o.kstrtol (λ m. buf) c ths kobj buf kio_queue_depth c'
        → (c'' : KioConfig) × (kio_config_is_valid o.is_power_of_2 o.dev_size
              o.kernel.num_online_cpus c'
            ≡ done (false, c''))
    Stored-rejected ths' a' s =
        let (at_index, depth) = Stored-depth s in
        let left = ap (λ d. d.threads) s.left in
        let same : ths' ≡ set ths s.index s.new = cc in
        depthless_rejected c' ths' s.index s.new a' (rw same at_index) depth

    -- The block sizes are as they were.
    Stored-pages :
        All OnePage ths
        → Stored o.kstrtol (λ m. buf) c ths kobj buf kio_queue_depth c'
        → (ths' : List KioThreadConfig) → IsAllocated c' ths'
        → check_block_sizes c'.num_threads 0 (cells c'.threads) ≡ done true
    unfolding write_var
    Stored-pages pages s ths' a' =
        let new : s.new ≡ record s.old { queue_depth = u32 s.value } = cc in
        let old_page = All-get_elem? OnePage ths s.index pages s.there in
        let page : OnePage s.new = ground arith in
        let left = ap (λ d. d.threads) s.left in
        let same : ths' ≡ set ths s.index s.new = cc in
        let all : All OnePage ths' = rw same (All-set OnePage ths s.index s.new pages page) in
        rw (a'.allocated, sym a'.counted) (check_block_sizes-true [] ths' all)

    stored_rejected :
        (n : ℕ)
        → kio_thread_var_store o.kstrtol false c kobj buf count kio_queue_depth ≡ done (ok n, c')
        → All OnePage ths
        → (check_block_sizes c'.num_threads 0 (cells c'.threads) ≡ done true)
          × ((c'' : KioConfig) × (kio_config_is_valid o.is_power_of_2 o.dev_size
                  o.kernel.num_online_cpus c'
                ≡ done (false, c'')))
    stored_rejected n run pages =
        let (r, d, ths', run', a') =
          store-IsAllocated o.kstrtol (λ m. buf) c ths a fits false kobj buf count
            kio_queue_depth in
        let same : d ≡ c' = cc in
        let s =
          (rw run at
            (store-Stores o.kstrtol (λ m. buf) c ths a false kobj buf count kio_queue_depth)).1 in
        (Stored-pages pages s ths' (rw same at a'), Stored-rejected ths' (rw same at a') s)

  -- If kio_config_is_valid accepts an allocated configuration and leaves every thread with a
  -- block size of one page, and a store into queue_depth of a multiple of 2 ^ 32 succeeds on what
  -- it leaves, then a write to run_workload and a write to the variable can overlap so that
  -- kio_run passes its test of the block sizes and sets kio_running with a configuration that
  -- kio_config_is_valid rejects, provided that kstrtol returns 64-bit numbers and the device's
  -- size is one.
  pub overlapping_write :
      (c c' c'' : KioConfig) (ths ths' : List KioThreadConfig) (kobj : ℕ) (buf : List ℕ)
      (count n v : ℕ)
      → IsAllocated c ths
      → kio_config_is_valid o.is_power_of_2 o.dev_size o.kernel.num_online_cpus c ≡ done (true, c')
      → c'.threads ≡ some ths'
      → All OnePage ths'
      → o.kstrtol buf ≡ ok v
      → u32 v ≡ 0
      → kio_thread_var_store o.kstrtol false c' kobj buf count kio_queue_depth ≡ done (ok n, c'')
      → Overlaps o kobj kio_queue_depth buf count
          (record { config = c; kio_running = false; runner = waiting; writer = outside })
          (record { config = c''; kio_running = true; runner = launched; writer = stored })
        × ((left : KioConfig) × (kio_config_is_valid o.is_power_of_2 o.dev_size
                o.kernel.num_online_cpus c''
              ≡ done (false, left)))
  overlapping_write c c' c'' ths ths' kobj buf count n v a valid there pages parsed zero run =
      let (good, lowered, run', low) =
        kio_config_is_valid-total o.is_power_of_2 o.dev_size o.kernel.num_online_cpus dev_fits c ths
          a in
      let same : c' ≡ record c { threads = some lowered } = cc in
      let alike : lowered ≡ ths' = cc in
      let a1 : IsAllocated c' lowered = rw same (AllLowered-IsAllocated ths lowered c low a) in
      let a' : IsAllocated c' ths' = rw alike at a1 in
      let (checked, rejected) =
        stored_rejected c' c'' ths' kobj buf count v a' parsed zero n run pages in
      (
        more
            (more (more (more here (test refl refl)) (check c' refl refl valid))
              (assign (ok n) c'' refl run))
            (launch refl checked),
        rejected,
      )
