-- ===== src/Config/Vars.antt =====
-- The sysfs files of one thread (driver/kio_config.c): which thread a kobject belongs to, and the
-- handlers that `VAR_ATTR_SHOW_STORE` makes for the thirteen variables. `kstrtol`, and `sprintf`
-- at "%ld\n", are parameters; a `long` is its 64-bit pattern, a text its bytes.
pub mod Fields
pub mod Search
pub mod Handlers
pub mod RoundTrip
use kernel_io.Common.{
  ℕ, zero, suc, ◌+◌, Bool, Option, none, some, List, ◌==◌, if◌then◌else◌, get_elem?, set, Exec,
  done, ◌>>=◌, load, Result, ok, err, enoent, ebusy, enodev, u1, u8, u32, sign_extend,
}
use kernel_io.Config.Types.{KioThreadConfig, KioConfig, cells, set_cells}

-- The enumerators that select a variable; `invalid` is any other value of the int.
pub data VarIndex : Type 0 where
  kio_block_size kio_queue_depth kio_offset_random kio_offset_stride kio_offset_low : VarIndex
  kio_offset_high kio_read_mix_percent kio_burst_delay kio_burst_finish kio_read_burst : VarIndex
  kio_write_burst kio_read_sleep_usec kio_write_sleep_usec : VarIndex
  invalid : VarIndex

-- `threads[i].kobj == kobj`, for a kobject that is not NULL.
abbrev has_kobj : ℕ → KioThreadConfig → Bool
has_kobj kobj t = elim t.kobj [ none ↦ Bool.false | some k ↦ k == kobj ]

-- The loop of `kio_thread_config_from_kobj`; the pointer that it returns is the index.
unfoldable pub find_kobj : (rounds i : ℕ) → List KioThreadConfig → ℕ → Exec (Option ℕ)
find_kobj zero i ths kobj = done none
find_kobj (suc rounds) i ths kobj = load (get_elem? ths i) >>= λ t.
    if has_kobj kobj t then done (some i) else find_kobj rounds (i + 1) ths kobj

unfoldable pub kio_thread_config_from_kobj : KioConfig → ℕ → Exec (Option ℕ)
kio_thread_config_from_kobj c kobj = find_kobj c.num_threads 0 (cells c.threads) kobj

-- The `switch` of `kio_thread_var_show`: the field, converted to a long.
unfoldable pub read_var : VarIndex → KioThreadConfig → Result ℕ
read_var kio_block_size t = ok t.block_size
read_var kio_queue_depth t = ok t.queue_depth
read_var kio_offset_random t = ok t.offset_random
read_var kio_offset_stride t = ok (sign_extend t.offset_stride)
read_var kio_offset_low t = ok t.offset_low
read_var kio_offset_high t = ok t.offset_high
read_var kio_read_mix_percent t = ok t.read_mix_percent
read_var kio_burst_delay t = ok t.burst_delay
read_var kio_burst_finish t = ok t.burst_finish
read_var kio_read_burst t = ok t.read_burst
read_var kio_write_burst t = ok t.write_burst
read_var kio_read_sleep_usec t = ok t.read_sleep_usec
read_var kio_write_sleep_usec t = ok t.write_sleep_usec
read_var invalid t = err enoent

-- The `switch` of `kio_thread_var_store`: the long, cut down to the type of the field.
unfoldable pub write_var : VarIndex → ℕ → KioThreadConfig → Result KioThreadConfig
write_var kio_block_size v t = ok (record t { block_size = u32 v })
write_var kio_queue_depth v t = ok (record t { queue_depth = u32 v })
write_var kio_offset_random v t = ok (record t { offset_random = u1 v })
write_var kio_offset_stride v t = ok (record t { offset_stride = u32 v })
write_var kio_offset_low v t = ok (record t { offset_low = v })
write_var kio_offset_high v t = ok (record t { offset_high = v })
write_var kio_read_mix_percent v t = ok (record t { read_mix_percent = u8 v })
write_var kio_burst_delay v t = ok (record t { burst_delay = u1 v })
write_var kio_burst_finish v t = ok (record t { burst_finish = u1 v })
write_var kio_read_burst v t = ok (record t { read_burst = u32 v })
write_var kio_write_burst v t = ok (record t { write_burst = u32 v })
write_var kio_read_sleep_usec v t = ok (record t { read_sleep_usec = u32 v })
write_var kio_write_sleep_usec v t = ok (record t { write_sleep_usec = u32 v })
write_var invalid v t = err enoent

-- The text that a show handler leaves in its buffer, by `sprintf` of what the variable reads.
abbrev pub printed : (ℕ → List ℕ) → Result ℕ → Result (List ℕ)
printed sprintf (ok v) = ok (sprintf v)
printed sprintf (err e) = err e

unfoldable pub kio_thread_var_show :
    (sprintf : ℕ → List ℕ) → KioConfig → ℕ → VarIndex → Exec (Result (List ℕ))
kio_thread_var_show sprintf c kobj var_index = kio_thread_config_from_kobj c kobj >>= λ ktc.
    elim ktc [
      | none ↦ done (err enodev)
      | some i ↦ load (get_elem? (cells c.threads) i) >>= λ t.
          done (printed sprintf (read_var var_index t))
    ]

-- Thread `i` becomes what the `switch` made of it.
abbrev assigned : KioConfig → ℕ → ℕ → Result KioThreadConfig → Result ℕ × KioConfig
assigned c i count (ok t) =
    (ok count, record c { threads = set_cells c.threads (set (cells c.threads) i t) })
assigned c i count (err e) = (err e, c)

-- What follows the search: parse, then assign.
unfoldable pub store_at :
    (kstrtol : List ℕ → Result ℕ)
    → KioConfig
    → ℕ
    → List ℕ
    → (count : ℕ) → VarIndex
    → Exec (Result ℕ × KioConfig)
store_at kstrtol c i buf count var_index = elim (kstrtol buf) [
  | err e ↦ done (err e, c)
  | ok value ↦ load (get_elem? (cells c.threads) i) >>= λ t.
      done (assigned c i count (write_var var_index value t))
]

unfoldable pub kio_thread_var_store :
    (kstrtol : List ℕ → Result ℕ) (kio_is_running : Bool)
    → KioConfig
    → ℕ
    → List ℕ
    → (count : ℕ) → VarIndex
    → Exec (Result ℕ × KioConfig)
unfolding store_at
kio_thread_var_store kstrtol kio_is_running c kobj buf count var_index =
    if kio_is_running
    then done (err ebusy, c)
    else (kio_thread_config_from_kobj c kobj >>= λ ktc. elim ktc [
      | none ↦ done (err enodev, c)
      | some i ↦ store_at kstrtol c i buf count var_index
    ])
