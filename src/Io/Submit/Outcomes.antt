-- ===== src/Io/Submit/Outcomes.antt =====
-- What a submission can come to.
use kernel_io.Common.{
  ℕ, ◌+◌, ◌*◌, ◌/◌, ◌%◌, ◌^◌, ◌≤◌, ◌<◌, ◌≡◌, ◌≢◌, ◌⊎◌, inl, inr, refl, Bool, true, false,
  Bool-cases, Option, none, some, List, [], ◌∷◌, arith, Exec, Exec-cases, done, fault, eio, enomem,
  einval, leb, u64, magnitude64, ◌==◌, ◌||◌,
}
use native.Mathlib.Nat.{mod-mod_of_dvd, dvd_of_mod-eq-zero}
use kernel_io.Io.Device.{KioIo, kio_io_offset_is_valid, page_size}
use kernel_io.Io.Submit.{
  BlockLayer, Bio, BioEvent, allocated, put, hand_over, sector_of, is_null, fill_bio, kio_io_submit,
}

-- The bio is put back, or handed over once: then the whole page lies on the device and starts at
-- the sector that the bio names.
pub data Filled (io : KioIo) (mode : ℕ) (layer : BlockLayer) (off page : ℕ) (is_write : Bool)
    : Option ℕ × List BioEvent → Type 0 where
  put_back :
      {r : Option ℕ × List BioEvent}
      → r ≡ (some eio, put ∷ allocated ∷ [])
      → Filled io mode layer off page is_write r
  handed_over :
      {r : Option ℕ × List BioEvent} (bio : Bio) (event : BioEvent)
      → hand_over mode layer bio ≡ done event
      → r ≡ (none, event ∷ allocated ∷ [])
      → bio.page ≡ page
      → bio.is_write ≡ is_write
      → bio.bi_sector * 512 ≡ off
      → off + page_size ≤ io.dev_byte_size
      → Filled io mode layer off page is_write r

-- Refused before a bio was allocated, or not.
pub data Submission (io : KioIo) (mode : ℕ) (layer : BlockLayer) (off : ℕ) (page : Option ℕ)
    (is_write : Bool) : Option ℕ × List BioEvent → Type 0 where
  refused :
      {r : Option ℕ × List BioEvent} (e : ℕ)
      → r ≡ (some e, [])
      → Submission io mode layer off page is_write r
  filled :
      {r : Option ℕ × List BioEvent} (p : ℕ)
      → page ≡ some p
      → Filled io mode layer off p is_write r
      → Submission io mode layer off page is_write r

valid_offset :
    (io : KioIo) (off : ℕ)
    → 0 < io.dev_block_size
    → (valid : Bool) × (kio_io_offset_is_valid io off page_size ≡ done valid)
unfolding kio_io_offset_is_valid
valid_offset io off blocks = elim (Bool-cases (leb (u64 (off + 4096)) io.dev_byte_size)) [
  | inl inside ↦ (magnitude64 off % io.dev_block_size == 0, ground arith)
  | inr outside ↦ (false, ground arith)
]

-- A multiple of a multiple.
sector_exact : (off b : ℕ) → off % b ≡ 0 → b % 512 ≡ 0 → off / 512 * 512 ≡ off
sector_exact off b h k = let same = mod-mod_of_dvd 512 off (dvd_of_mod-eq-zero 512 k) in omega arith

valid_offset-sector :
    (io : KioIo) (off : ℕ)
    → io.dev_block_size % 512 ≡ 0
    → off < 2 ^ 63
    → kio_io_offset_is_valid io off page_size ≡ done true
    → (sector_of off * 512 ≡ off) × (off + page_size ≤ io.dev_byte_size)
unfolding kio_io_offset_is_valid
valid_offset-sector io off sectors small valid =
    let whole : off % io.dev_block_size ≡ 0 = ground arith in
    let exact = sector_exact off io.dev_block_size whole sectors in (ground arith, ground arith)

-- The call of the driver that it has not.
abbrev pub NoDriver : (mode : ℕ) → BlockLayer → Type 0
NoDriver mode layer = (mode ≡ 2) × (layer.fops_submit_bio ≡ false)

hand_over_fault :
    (mode : ℕ) (layer : BlockLayer) (bio : Bio)
    → hand_over mode layer bio ≡ fault
    → NoDriver mode layer
hand_over_fault mode layer bio h = (ground arith, ground arith)

-- An outcome, or the fault of that call.
abbrev pub ComesTo :
    (mode : ℕ)
    → BlockLayer
    → Exec (Option ℕ × List BioEvent)
    → (Option ℕ × List BioEvent → Type 0)
    → Type 0
ComesTo mode layer run P =
    ((r : Option ℕ × List BioEvent) × (run ≡ done r) × P r)
    ⊎ ((mode ≡ 2) × (layer.fops_submit_bio ≡ false) × (run ≡ fault))

fill_bio-Filled :
    (io : KioIo) (mode : ℕ) (layer : BlockLayer) (off p : ℕ) (is_write : Bool)
    → (sector_of off * 512 ≡ off) × (off + page_size ≤ io.dev_byte_size)
    → ComesTo mode layer
        (fill_bio mode layer (record { bi_sector = sector_of off; page = p; is_write = is_write }))
        (Filled io mode layer off p is_write)
unfolding fill_bio
fill_bio-Filled io mode layer off p is_write (exact, inside) =
    let bio : Bio = record { bi_sector = sector_of off; page = p; is_write = is_write } in
    elim (Bool-cases (layer.bio_add_page == 0)) [
      | inl nothing ↦ inl (_, ground arith, put_back refl)
      | inr added ↦ elim (Bool-cases layer.bio_has_disk) [
        | inr no_disk ↦ inl (_, ground arith, put_back refl)
        | inl disk ↦ elim (Bool-cases (layer.bi_vcnt == 0 || is_null layer.bv_page)) [
          | inl no_vector ↦ inl (_, ground arith, put_back refl)
          | inr vector ↦ elim (Exec-cases (hand_over mode layer bio)) [
            | inl faults ↦
                let (second, missing) = hand_over_fault mode layer bio faults in
                inr (second, missing, ground arith)
            | inr (event, goes) ↦ inl (
              (none, event ∷ allocated ∷ []),
              ground arith,
              handed_over bio event goes refl refl refl exact inside,
            )
          ]
        ]
      ]
    ]

module _ (io : KioIo) (mode : ℕ) (layer : BlockLayer) (blocks : 0 < io.dev_block_size)
    (sectors : io.dev_block_size % 512 ≡ 0) (bdev : ℕ) (open_device : io.bdev ≡ some bdev) (off : ℕ)
    (small : off < 2 ^ 63) where
  -- At an offset that the device accepts, only memory can be short.
  pub kio_io_submit_valid :
      (p : ℕ) (is_write : Bool)
      → kio_io_offset_is_valid io off page_size ≡ done true
      → ComesTo mode layer
          (kio_io_submit io mode layer off (some p) is_write)
          (λ r. (r ≡ (some enomem, [])) ⊎ Filled io mode layer off p is_write r)
  unfolding kio_io_submit
  kio_io_submit_valid p is_write valid = elim (Bool-cases layer.bio_alloc) [
    | inr no_memory ↦ inl ((some enomem, []), ground arith, inl refl)
    | inl memory ↦
        let fills =
          fill_bio-Filled io mode layer off p is_write
            (valid_offset-sector io off sectors small valid) in
        elim fills [
          | inl (r, run, full) ↦ inl (r, ground (arith, open_device), inr full)
          | inr (second, missing, faults) ↦ inr (second, missing, ground (arith, open_device))
        ]
  ]

  -- On an open device whose block size is a multiple of 512 and not zero, at an offset below 2 ^
  -- 63, and whatever the block layer returns, kio_io_submit comes to one of four things: an error
  -- before a bio is allocated; EIO with the bio put back; success with the bio handed over once,
  -- and then its first sector is exactly the offset, before a remap, its page and direction are
  -- the given ones, and the page lies on the device; or a fault, in mode 2 alone, on a disk whose
  -- driver has no submit_bio.
  pub kio_io_submit-Submission :
      (page : Option ℕ) (is_write : Bool)
      → ComesTo mode layer
          (kio_io_submit io mode layer off page is_write)
          (Submission io mode layer off page is_write)
  unfolding kio_io_submit
  kio_io_submit-Submission none is_write = inl ((some 14, []), refl, refused 14 refl)
  kio_io_submit-Submission (some p) is_write =
      let (valid, run) = valid_offset io off blocks in
      elim (Bool-cases valid) [
        | inr bad ↦ inl ((some 22, []), ground arith, refused 22 refl)
        | inl good ↦ elim (kio_io_submit_valid p is_write (rw good at run)) [
          | inr faults ↦ inr faults
          | inl (r, ran, inl no_memory) ↦ inl (r, ran, refused 12 no_memory)
          | inl (r, ran, inr full) ↦ inl (r, ran, filled p refl full)
        ]
      ]

module _ (io : KioIo) (mode : ℕ) (layer : BlockLayer) (off : ℕ) (small : off < 2 ^ 63) where
  -- A page at an offset below 2 ^ 63 that kio_io_offset_is_valid accepts is handed over in modes 0
  -- and 1, if the device is open and a bio is allocated, takes the page and has a disk.
  pub kio_io_submit_accepted :
      (p bdev : ℕ) (is_write : Bool)
      → kio_io_offset_is_valid io off page_size ≡ done true
      → io.bdev ≡ some bdev
      → mode ≢ 2
      → layer.bio_alloc ≡ true
      → layer.bio_add_page ≢ 0
      → layer.bio_has_disk ≡ true
      → layer.bi_vcnt ≢ 0
      → is_null layer.bv_page ≡ false
      → (event : BioEvent) × (hand_over mode layer
            (record { bi_sector = off / 512; page = p; is_write = is_write })
          ≡ done event)
        × (kio_io_submit io mode layer off (some p) is_write ≡ done (none, event ∷ allocated ∷ []))
  unfolding kio_io_submit fill_bio
  kio_io_submit_accepted p bdev is_write valid there mode_0_1 memory added disk vector page =
      let bio : Bio = record { bi_sector = off / 512; page = p; is_write = is_write } in
      elim (Exec-cases (hand_over mode layer bio)) [
        | inl faults ↦ absurd (mode_0_1 (hand_over_fault mode layer bio faults).0)
        | inr (event, goes) ↦ (event, goes, ground arith)
      ]

  -- On a device of no bytes every offset below 2 ^ 63 is refused.
  pub kio_io_submit_refused :
      (p : ℕ) (is_write : Bool)
      → io.dev_byte_size ≡ 0
      → kio_io_submit io mode layer off (some p) is_write ≡ done (some einval, [])
  unfolding kio_io_submit kio_io_offset_is_valid
  kio_io_submit_refused p is_write nothing = ground arith
