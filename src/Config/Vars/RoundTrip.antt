-- ===== src/Config/Vars/RoundTrip.antt =====
-- What a store does to what is shown, of the variable that it writes and of all others.
use kernel_io.Common.{
  ℕ, ◌^◌, ◌<◌, ◌≡◌, ◌≢◌, ◌⊎◌, ◌∙◌, sym, ap, inl, inr, Bool, false, Option, none, some, List, arith,
  get_elem?, set, get_elem?-set_self, get_elem?-set_ne, get_elem?-lt, set-get_elem?, All-get_elem?,
  Exec, done, Result, Result-cases, ok, err,
}
use native.Mathlib.Decide.{ℕ_discrete}
use kernel_io.Config.Types.{KioThreadConfig, KioConfig, IsAllocated, Fits}
use kernel_io.Config.Vars.{
  VarIndex, kio_thread_var_show, kio_thread_var_store, store_at, kio_thread_config_from_kobj,
  read_var, printed,
}
use kernel_io.Config.Vars.Fields.{
  kind, fit, read_var-write_var, read_var-write_var_ne, write_var-read_var, write_var-kobj,
  read_var-lt,
}
use kernel_io.Config.Vars.Search.{Found, find_kobj-set, kio_thread_config_from_kobj-Found}
use kernel_io.Config.Vars.Handlers.{Stored, store-Stores}

module _ (kstrtol : List ℕ → Result ℕ) (sprintf : ℕ → List ℕ) (c : KioConfig)
    (ths : List KioThreadConfig) (a : IsAllocated c ths) where
  -- A show reads the thread that the search finds.
  show_found :
      (d : KioConfig) (us : List KioThreadConfig) (kobj i : ℕ) (x : VarIndex) (t : KioThreadConfig)
      → d.threads ≡ some us
      → kio_thread_config_from_kobj d kobj ≡ done (some i)
      → get_elem? us i ≡ some t
      → kio_thread_var_show sprintf d kobj x ≡ done (printed sprintf (read_var x t))
  unfolding kio_thread_var_show
  show_found d us kobj i x t p f e = ground (arith, p, f, e)

  show_missing :
      (d : KioConfig) (kobj : ℕ) (x : VarIndex)
      → kio_thread_config_from_kobj d kobj ≡ done none
      → kio_thread_var_show sprintf d kobj x ≡ done (err 19)
  unfolding kio_thread_var_show
  show_missing d kobj x f = ground (arith, f)

  module _ {kobj : ℕ} {buf : List ℕ} {x : VarIndex} {c' : KioConfig}
      (s : Stored kstrtol sprintf c ths kobj buf x c') where
    -- A search after a store finds what it found before.
    Stored-search : (k : ℕ) → kio_thread_config_from_kobj c' k ≡ kio_thread_config_from_kobj c k
    unfolding kio_thread_config_from_kobj
    Stored-search k =
        rw (s.left, a.allocated)
          (find_kobj-set c.num_threads 0 s.index ths k s.old s.new s.there
            (write_var-kobj x s.value s.old s.written))

    Stored-threads : c'.threads ≡ some (set ths s.index s.new)
    Stored-threads = ap (λ d. d.threads) s.left

    Stored-show : kio_thread_var_show sprintf c' kobj x ≡ done (ok (sprintf (fit (kind x) s.value)))
    Stored-show =
        show_found c' _ kobj s.index x s.new Stored-threads (Stored-search kobj ∙ s.found)
          (get_elem?-set_self ths s.index s.new (get_elem?-lt ths s.index s.there))
        ∙ ap (λ r. done (printed sprintf r)) (read_var-write_var x s.value s.old s.written)

    module _ (k j : ℕ) (y : VarIndex) (other : (k ≢ kobj) ⊎ (x ≢ y))
        (f : kio_thread_config_from_kobj c k ≡ done (some j)) (t : KioThreadConfig)
        (e : get_elem? ths j ≡ some t) (kt : t.kobj ≡ some k) where
      same_thread : s.index ≡ j → s.old ≡ t
      same_thread same = ground (arith, s.there)

      another_var : s.index ≡ j → x ≢ y
      another_var same = elim other [
        | inl ne ↦ absurd (ne (ground (arith, same_thread same, s.its)))
        | inr d ↦ d
      ]

      show_same :
          s.index ≡ j → kio_thread_var_show sprintf c' k y ≡ kio_thread_var_show sprintf c k y
      show_same same =
          show_found c' _ k s.index y s.new Stored-threads
            (Stored-search k ∙ f ∙ ap (λ m. done (some m)) (sym same))
            (get_elem?-set_self ths s.index s.new (get_elem?-lt ths s.index s.there))
          ∙ ap (λ r. done (printed sprintf r))
              (read_var-write_var_ne x y s.value s.old (another_var same) s.written
                ∙ ap (read_var y) (same_thread same))
          ∙ sym (show_found c ths k j y t a.allocated f e)

      show_apart :
          s.index ≢ j → kio_thread_var_show sprintf c' k y ≡ kio_thread_var_show sprintf c k y
      show_apart apart =
          show_found c' _ k j y t Stored-threads (Stored-search k ∙ f)
            (get_elem?-set_ne ths s.index j s.new apart ∙ e)
          ∙ sym (show_found c ths k j y t a.allocated f e)

      Stored-show_at : kio_thread_var_show sprintf c' k y ≡ kio_thread_var_show sprintf c k y
      Stored-show_at = elim (ℕ_discrete s.index j) [
        | yes same ↦ show_same same
        | no apart ↦ show_apart apart
      ]

    Stored-show_other :
        (k : ℕ) (y : VarIndex)
        → (k ≢ kobj) ⊎ (x ≢ y)
        → kio_thread_var_show sprintf c' k y ≡ kio_thread_var_show sprintf c k y
    Stored-show_other k y other =
        let (r, found, what) = kio_thread_config_from_kobj-Found c ths k a in from r found what
      where
        from :
            (r : Option ℕ)
            → kio_thread_config_from_kobj c k ≡ done r
            → Found ths k 0 r
            → kio_thread_var_show sprintf c' k y ≡ kio_thread_var_show sprintf c k y
        from none f what = show_missing c' k y (Stored-search k ∙ f) ∙ sym (show_missing c k y f)
        from (some j) f (t, e, kt) = Stored-show_at k j y other f t e kt

  module _ (running : Bool) (kobj : ℕ) (buf : List ℕ) (count n : ℕ) (x : VarIndex) (c' : KioConfig)
      (stored : kio_thread_var_store kstrtol running c kobj buf count x ≡ done (ok n, c')) where
    what_it_did : Stored kstrtol sprintf c ths kobj buf x c'
    what_it_did = (rw stored at (store-Stores kstrtol sprintf c ths a running kobj buf count x)).1

    shown_new :
        (v : ℕ)
        → kstrtol buf ≡ ok v
        → kio_thread_var_show sprintf c' kobj x ≡ done (ok (sprintf (fit (kind x) v)))
    shown_new v parsed =
        Stored-show what_it_did
        ∙ ap (λ w. done (ok (sprintf (fit (kind x) w)))) (cc (what_it_did.parsed))

    -- After a store that succeeded in an allocated configuration, the variable shows the number
    -- that kstrtol found in the text, as the type of the variable cuts it down; and what is shown
    -- through every other kobject, and what every other variable shows, is as it was.
    pub show-store :
        (v : ℕ)
        → kstrtol buf ≡ ok v
        → (k : ℕ) (y : VarIndex) → (k ≢ kobj) ⊎ (x ≢ y)
        → (kio_thread_var_show sprintf c' kobj x ≡ done (ok (sprintf (fit (kind x) v))))
          × (kio_thread_var_show sprintf c' k y ≡ kio_thread_var_show sprintf c k y)
    show-store v parsed k y other = (shown_new v parsed, Stored-show_other what_it_did k y other)

  -- To assign what was printed is to assign the value read.
  store_same :
      (kobj i : ℕ) (x : VarIndex) (text : List ℕ) (count : ℕ) (t : KioThreadConfig)
      → get_elem? ths i ≡ some t
      → printed sprintf (read_var x t) ≡ ok text
      → ((v : ℕ) → v < 2 ^ 64 → kstrtol (sprintf v) ≡ ok v)
      → store_at kstrtol c i text count x ≡ done (ok count, c)
  unfolding store_at
  store_same kobj i x text count t e p reads = elim (Result-cases (read_var x t)) [
    | inl (n, bad) ↦ cc (rw bad at p)
    | inr (v, reads_v) ↦
        let fits = All-get_elem? Fits ths i a.fits e in
        ground (
          arith,
          a.allocated,
          reads v (read_var-lt x v t fits reads_v),
          write_var-read_var x v t fits reads_v,
          set-get_elem? ths i e,
        )
  ]

  -- In an allocated configuration, while no workload runs: to store into a variable the text that
  -- its show handler printed succeeds and leaves the configuration as it was, if kstrtol reads
  -- back what sprintf prints of a 64-bit number.
  pub store-show :
      ((v : ℕ) → v < 2 ^ 64 → kstrtol (sprintf v) ≡ ok v)
      → (kobj : ℕ) (x : VarIndex) (text : List ℕ) (count : ℕ)
      → kio_thread_var_show sprintf c kobj x ≡ done (ok text)
      → kio_thread_var_store kstrtol false c kobj text count x ≡ done (ok count, c)
  unfolding kio_thread_var_store
  store-show reads kobj x text count shown =
      let (r, found, what) = kio_thread_config_from_kobj-Found c ths kobj a in
      rw (found, kio_thread_var_store) (from r found what)
    where
      from :
          (r : Option ℕ)
          → kio_thread_config_from_kobj c kobj ≡ done r
          → Found ths kobj 0 r
          → ◌≡◌ {A = Exec (Result ℕ × KioConfig)}
              (elim r [ none ↦ done (err 19, c) | some i ↦ store_at kstrtol c i text count x ])
              (done (ok count, c))
      from none f what = ground (arith, show_missing c kobj x f)
      from (some i) f (t, e, kt) =
          store_same kobj i x text count t e (cc (show_found c ths kobj i x t a.allocated f e))
            reads
