-- ===== src/Control/Show/Total.antt =====
-- No access to a file of the module faults.
use kernel_io.Common.{
  ℕ, ◌≡◌, ◌≢◌, inl, inr, refl, Option, none, some, List, arith, done, Result, err,
}
use kernel_io.Config.Types.{KioThreadConfig, KioConfig, IsAllocated}
use kernel_io.Config.Vars.{
  VarIndex, kio_thread_var_show, kio_thread_config_from_kobj, printed, read_var,
}
use kernel_io.Config.Vars.Search.{Found, kio_thread_config_from_kobj-Found}
use kernel_io.Kernel.{Kio}
use kernel_io.Control.{Outside, Write, store}
use kernel_io.Control.Safety.{WellFormed, Served, Trusted}
use kernel_io.Control.Reached.{Reached, Reached-WellFormed, Reached-writes_return}
use kernel_io.Control.Show.{
  Read, from_num_threads, from_runtime_seconds, from_run_workload, from_var, show,
}

-- The file of a variable is read while threads are allocated.
abbrev pub ServedRead : Read → Kio → Type 0
ServedRead (from_var kobj var_index) s = s.config.threads ≢ none
ServedRead _ s = Unit

var_show-total :
    (sprintf : ℕ → List ℕ) (c : KioConfig) (ths : List KioThreadConfig) (kobj : ℕ) (x : VarIndex)
    → IsAllocated c ths
    → (r : Result (List ℕ)) × (kio_thread_var_show sprintf c kobj x ≡ done r)
unfolding kio_thread_var_show
var_show-total sprintf c ths kobj x a =
    let (r, found, what) = kio_thread_config_from_kobj-Found c ths kobj a in from r found what
  where
    from :
        (r : Option ℕ)
        → kio_thread_config_from_kobj c kobj ≡ done r
        → Found ths kobj 0 r
        → (q : Result (List ℕ)) × (kio_thread_var_show sprintf c kobj x ≡ done q)
    from none f what = (err 19, ground (arith, f))
    from (some i) f (t, there, k) =
        (printed sprintf (read_var x t), ground (arith, a.allocated, f, there))

module _ (sprintf_d sprintf_ld : ℕ → List ℕ) where
  show-total :
      (rd : Read) (s : Kio)
      → WellFormed s
      → ServedRead rd s
      → (r : Result (List ℕ)) × (show sprintf_d sprintf_ld rd s ≡ done r)
  unfolding show
  show-total from_num_threads s wf served = (_, refl)
  show-total from_runtime_seconds s wf served = (_, refl)
  show-total from_run_workload s wf served = (_, refl)
  show-total (from_var kobj x) s (inl null) served = absurd (served null)
  show-total (from_var kobj x) s (inr (ths, a)) served =
      var_show-total sprintf_ld s.config ths kobj x a

  -- In every state that the module reaches from a successful kio_config_init by writes to its
  -- files: a read of any of its files returns, and a further write to any of them returns and
  -- leaves a state so reached. Conditions: sscanf and kstrtol return numbers of their types, the
  -- size of the device is a 64-bit number, every kthread_run succeeds and every kthread_stop
  -- returns, and the file of a variable is read or written to only while threads are allocated.
  pub Reached-accesses_return :
      (o : Outside) (w : Write) (rd : Read) (s : Kio)
      → Trusted o
      → Reached s
      → Served w s
      → ServedRead rd s
      → ((text : Result (List ℕ)) × (show sprintf_d sprintf_ld rd s ≡ done text))
        × ((r : Result ℕ) × (s' : Kio) × (store o w s ≡ done (r, s')) × Reached s')
  Reached-accesses_return o w rd s trusted reached served served_read = (
    show-total rd s (Reached-WellFormed s reached) served_read,
    Reached-writes_return o w s trusted reached served,
  )
