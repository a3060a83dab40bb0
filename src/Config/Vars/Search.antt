-- ===== src/Config/Vars/Search.antt =====
-- `kio_thread_config_from_kobj`: what it finds, and that a store does not disturb it.
use kernel_io.Common.{
  ℕ, zero, suc, ◌+◌, ◌≤◌, ◌≡◌, ◌≢◌, refl, true, false, Option, none, some, List, arith, Bool-cases,
  inl, inr, length, get_elem?, set, get_elem?-set_self, get_elem?-set_ne, get_elem?-lt,
  lt-get_elem?, done,
}
use native.Mathlib.Decide.{ℕ_discrete}
use kernel_io.Config.Types.{KioThreadConfig, KioConfig, IsAllocated}
use kernel_io.Config.Vars.{has_kobj, find_kobj, kio_thread_config_from_kobj}

-- A thread with the kobject, or none from index `i` on.
abbrev pub Found : (ths : List KioThreadConfig) (kobj i : ℕ) → Option ℕ → Type 0
Found ths kobj i none =
    (j : ℕ) (t : KioThreadConfig) → i ≤ j → get_elem? ths j ≡ some t → t.kobj ≢ some kobj
Found ths kobj i (some j) =
    (t : KioThreadConfig) × (get_elem? ths j ≡ some t) × (t.kobj ≡ some kobj)

has_kobj_sound : (kobj : ℕ) (t : KioThreadConfig) → has_kobj kobj t ≡ true → t.kobj ≡ some kobj
has_kobj_sound kobj t h = ground arith

past :
    (kobj : ℕ) (ths : List KioThreadConfig) (i : ℕ) (t : KioThreadConfig)
    → get_elem? ths i ≡ some t
    → has_kobj kobj t ≡ false
    → (r : Option ℕ) → Found ths kobj (i + 1) r
    → Found ths kobj i r
past kobj ths i t e other none later = λ j u p g. elim (ℕ_discrete j i) [
  | yes same ↦ ground arith
  | no apart ↦ later j u (omega arith) g
]
past kobj ths i t e other (some j) later = later

pub find_kobj-Found :
    (rounds i : ℕ) (ths : List KioThreadConfig) (kobj : ℕ)
    → i + rounds ≡ length ths
    → (r : Option ℕ) × (find_kobj rounds i ths kobj ≡ done r) × Found ths kobj i r
unfolding find_kobj
find_kobj-Found zero i ths kobj h =
    (none, refl, λ j t p e. absurd (omega (arith, get_elem?-lt ths j e)))
find_kobj-Found (suc rounds) i ths kobj h =
    let (t, e) = lt-get_elem? ths i (omega arith) in
    elim (Bool-cases (has_kobj kobj t)) [
      | inl here ↦ (some i, rw (e, here), (t, e, has_kobj_sound kobj t here))
      | inr other ↦
          let (r, found, ih) = find_kobj-Found rounds (i + 1) ths kobj (omega arith) in
          (r, rw (e, other) found, past kobj ths i t e other r ih)
    ]

-- A search does not see a write that leaves `kobj` alone.
pub find_kobj-set :
    (rounds i j : ℕ) (ths : List KioThreadConfig) (kobj : ℕ) (t t' : KioThreadConfig)
    → get_elem? ths j ≡ some t
    → t'.kobj ≡ t.kobj
    → find_kobj rounds i (set ths j t') kobj ≡ find_kobj rounds i ths kobj
unfolding find_kobj
find_kobj-set zero i j ths kobj t t' e k = refl
find_kobj-set (suc rounds) i j ths kobj t t' e k =
    let ih = find_kobj-set rounds (i + 1) j ths kobj t t' e k in
    elim (ℕ_discrete j i) [
      | yes same ↦ ground (arith, get_elem?-set_self ths j t', get_elem?-lt ths j e, ih)
      | no apart ↦ ground (arith, get_elem?-set_ne ths j i t' apart, ih)
    ]

-- In an allocated configuration kio_thread_config_from_kobj never faults; it returns a thread
-- whose kobject is the given one, or nothing, and then no thread has that kobject.
pub kio_thread_config_from_kobj-Found :
    (c : KioConfig) (ths : List KioThreadConfig) (kobj : ℕ)
    → IsAllocated c ths
    → (r : Option ℕ) × (kio_thread_config_from_kobj c kobj ≡ done r) × Found ths kobj 0 r
unfolding kio_thread_config_from_kobj
kio_thread_config_from_kobj-Found c ths kobj a =
    rw a.allocated (find_kobj-Found c.num_threads 0 ths kobj (omega (arith, a.counted)))
