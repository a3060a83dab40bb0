-- ===== src/Config/Vars/Handlers.antt =====
-- The show and store handlers of a thread's variables.
use kernel_io.Common.{
  ℕ, ◌^◌, ◌<◌, ◌≡◌, ◌∙◌, refl, Bool, true, false, Option, none, some, List, length-set, get_elem?,
  set, All-set, All-get_elem?, Exec, done, fault, Result-cases, inl, inr, Result, ok, err, ebusy,
  enodev,
}
use kernel_io.Config.Types.{KioThreadConfig, KioConfig, IsAllocated, Fits}
use kernel_io.Config.Vars.{
  VarIndex, kio_thread_var_store, store_at, kio_thread_config_from_kobj, write_var,
}
use kernel_io.Config.Vars.Fields.{write_var-Fits}
use kernel_io.Config.Vars.Search.{Found, kio_thread_config_from_kobj-Found}

-- While a workload runs no variable changes.
pub store_busy :
    (kstrtol : List ℕ → Result ℕ) (c : KioConfig) (kobj : ℕ) (buf : List ℕ) (count : ℕ)
    (x : VarIndex)
    → kio_thread_var_store kstrtol true c kobj buf count x ≡ done (err ebusy, c)
unfolding kio_thread_var_store
store_busy kstrtol c kobj buf count x = refl

module _ (kstrtol : List ℕ → Result ℕ) (sprintf : ℕ → List ℕ) where
  -- What a store leaves when it does not report an error.
  pub record Stored (c : KioConfig) (ths : List KioThreadConfig) (kobj : ℕ) (buf : List ℕ)
      (x : VarIndex) (c' : KioConfig) : Type 0 where
    pub index : ℕ
    pub value : ℕ
    pub old : KioThreadConfig
    pub new : KioThreadConfig
    pub parsed : kstrtol buf ≡ ok value
    pub there : get_elem? ths index ≡ some old
    pub its : old.kobj ≡ some kobj
    pub found : kio_thread_config_from_kobj c kobj ≡ done (some index)
    pub written : write_var x value old ≡ ok new
    pub left : c' ≡ record c { threads = some (set ths index new) }

  -- A store reports an error and leaves the configuration as it was, or has stored.
  abbrev pub Stores :
      KioConfig
      → List KioThreadConfig
      → ℕ
      → List ℕ
      → ℕ
      → VarIndex
      → Exec (Result ℕ × KioConfig)
      → Type 0
  Stores c ths kobj buf count x (done (err e, c')) = c' ≡ c
  Stores c ths kobj buf count x (done (ok n, c')) = (n ≡ count) × Stored c ths kobj buf x c'
  Stores c ths kobj buf count x fault = ⊥

  module _ (c : KioConfig) (ths : List KioThreadConfig) (a : IsAllocated c ths) where
    store_at-Stores :
        (kobj : ℕ) (buf : List ℕ) (count i : ℕ) (x : VarIndex) (t : KioThreadConfig)
        → get_elem? ths i ≡ some t
        → t.kobj ≡ some kobj
        → kio_thread_config_from_kobj c kobj ≡ done (some i)
        → Stores c ths kobj buf count x (store_at kstrtol c i buf count x)
    unfolding store_at
    store_at-Stores kobj buf count i x t e k f = elim (Result-cases (kstrtol buf)) [
      | inl (n, bad) ↦ rw (bad, store_at) refl
      | inr (v, parsed) ↦ elim (Result-cases (write_var x v t)) [
        | inl (n, bad) ↦ rw (parsed, store_at) (rw (a.allocated, e) (rw bad refl))
        | inr (t', written) ↦
            rw (parsed, store_at)
              (rw (a.allocated, e)
                (rw written (
                  refl,
                  record {
                    index = i;
                    value = v;
                    old = t;
                    new = t';
                    parsed = parsed;
                    there = e;
                    its = k;
                    found = rw a.allocated at f;
                    written = written;
                    left = refl;
                  },
                )))
      ]
    ]

    pub store-Stores :
        (running : Bool) (kobj : ℕ) (buf : List ℕ) (count : ℕ) (x : VarIndex)
        → Stores c ths kobj buf count x (kio_thread_var_store kstrtol running c kobj buf count x)
    unfolding kio_thread_var_store
    store-Stores true kobj buf count x = refl
    store-Stores false kobj buf count x =
        let (r, found, what) = kio_thread_config_from_kobj-Found c ths kobj a in
        rw (found, kio_thread_var_store) (from r found what)
      where
        from :
            (r : Option ℕ)
            → kio_thread_config_from_kobj c kobj ≡ done r
            → Found ths kobj 0 r
            → Stores c ths kobj buf count x
                (elim r [ none ↦ done (err enodev, c) | some i ↦ store_at kstrtol c i buf count x ])
        from none found what = refl
        from (some i) found (t, e, k) = store_at-Stores kobj buf count i x t e k found

    -- In an allocated configuration a store never faults, whatever it returns, and leaves an
    -- allocated configuration, if kstrtol returns 64-bit numbers.
    pub store-IsAllocated :
        ((buf : List ℕ) (v : ℕ) → kstrtol buf ≡ ok v → v < 2 ^ 64)
        → (running : Bool) (kobj : ℕ) (buf : List ℕ) (count : ℕ) (x : VarIndex)
        → (r : Result ℕ) × (c' : KioConfig) × (ths' : List KioThreadConfig) × (kio_thread_var_store
              kstrtol running c kobj buf count x
            ≡ done (r, c'))
          × IsAllocated c' ths'
    store-IsAllocated fits running kobj buf count x =
        from (kio_thread_var_store kstrtol running c kobj buf count x)
          (store-Stores running kobj buf count x)
      where
        from :
            (r : Exec (Result ℕ × KioConfig))
            → Stores c ths kobj buf count x r
            → (r' : Result ℕ) × (c' : KioConfig) × (ths' : List KioThreadConfig) × (r
                ≡ done (r', c'))
              × IsAllocated c' ths'
        from (done (err n, c')) s = (err n, c', ths, refl, rw s a)
        from (done (ok n, c')) (_, s) = (
          ok n,
          c',
          set ths s.index s.new,
          refl,
          rw s.left (record {
            allocated = refl;
            counted = length-set ths s.index s.new ∙ a.counted;
            fits = All-set Fits ths s.index s.new a.fits (
                write_var-Fits x s.value s.old (fits buf s.value s.parsed)
                  (All-get_elem? Fits ths s.index a.fits s.there) s.written);
          }),
        )
        from fault s = absurd s
