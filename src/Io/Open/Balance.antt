-- ===== src/Io/Open/Balance.antt =====
-- What opening the device leaves held, on each of its exits.
use kernel_io.Common.{
  ℕ, ◌≤◌, ◌≡◌, ◌≢◌, inl, inr, refl, true, false, Bool-cases, Option, Option-cases, none, some, List,
  ◌∷◌, arith, done, load, >>=-eq-done, ltb, enodev, etoosmall,
}
use kernel_io.Io.Device.{Name}
use kernel_io.Io.Open.{
  freed_name, opened, closed, bio_set_released, Opened, null, err_ptr, device, BlockKernel, Dev,
  note, min_byte_size, release_dev_name, put_bdev, put_back_bd, setup_error, set_up_bios,
  check_device, open_device, noted_copy, kio_io_init, no_device, release_bio_set, kio_io_exit,
}
use kernel_io.Io.Open.Ledger.{nothing, all_of, ledger}

-- Nothing is held, and the set of bios is as the record says; or a device of at least 1 GiB is
-- open, with its name and the set of bios.
abbrev pub IsClosed : Dev → Type 0
IsClosed d = ledger d.events ≡ some nothing

pub record IsOpen (kernel : BlockKernel) (d : Dev) : Type 0 where
  pub name : Name
  pub bdev : ℕ
  pub block_size : ℕ
  pub held : ledger d.events ≡ some (all_of bdev)
  pub unskipped : name.skipped ≡ 0
  pub queue : kernel.logical_block_size bdev ≡ some block_size
  pub big : min_byte_size ≤ kernel.i_size_read bdev
  pub io : d.io ≡ record {
    dev_name = some name;
    bdev = some bdev;
    dev_byte_size = kernel.i_size_read bdev;
    dev_block_size = block_size;
    bio_set = true;
  }

-- An error and nothing held, or success and the device open.
abbrev pub Opens : BlockKernel → Option ℕ × Dev → Type 0
Opens kernel (some e, d) = IsClosed d
Opens kernel (none, d) = IsOpen kernel d

-- With a copy of the name in hand.
abbrev Named : Dev → Type 0
Named d = ledger d.events ≡ some (record nothing { names = 1 })

-- With the device open besides.
abbrev Has : ℕ → Dev → Type 0
Has bdev d = ledger d.events ≡ some (record { names = 1; bdev = some bdev; bio_set = false })

-- What `blkdev_get_by_path` can have returned.
data OpenedCase (o : Opened) : Type 0 where
  missing : o ≡ null → OpenedCase o
  failing : (e : ℕ) → o ≡ err_ptr e → OpenedCase o
  opening : (bdev : ℕ) → o ≡ device bdev → OpenedCase o

Opened-cases : (o : Opened) → OpenedCase o
Opened-cases null = missing refl
Opened-cases (err_ptr e) = failing e refl
Opened-cases (device bdev) = opening bdev refl

Has-opened : (bdev : ℕ) (d : Dev) → Named d → Has bdev (note (opened bdev) d)
unfolding ledger
Has-opened bdev d h = ground arith

module _ (kernel : BlockKernel) (name : Name) (unskipped : name.skipped ≡ 0) where
  release_dev_name-Closed : (e : ℕ) (d : Dev) → Named d → IsClosed (release_dev_name name e d).1
  unfolding ledger
  release_dev_name-Closed e d h = ground arith

  put_bdev-Closed : (bdev e : ℕ) (d : Dev) → Has bdev d → IsClosed (put_bdev name bdev e d).1
  unfolding ledger
  put_bdev-Closed bdev e d h = ground arith

  put_back_bd-Opens :
      (bdev e : ℕ) (d : Dev)
      → kernel.releases_unset ≡ true
      → Has bdev d
      → (r : Option ℕ × Dev) × (put_back_bd kernel name bdev e d ≡ done r) × Opens kernel r
  unfolding ledger
  put_back_bd-Opens bdev e d unset h =
      let d' = record (note bio_set_released d) { io = record d.io { bio_set = false } } in
      (put_bdev name bdev e d', ground arith, put_bdev-Closed bdev e d' (ground arith))

  set_up_bios-Opens :
      (bdev block_size : ℕ) (d : Dev)
      → Has bdev d
      → kernel.logical_block_size bdev ≡ some block_size
      → min_byte_size ≤ kernel.i_size_read bdev
      → Opens kernel (set_up_bios kernel name bdev block_size d)
  unfolding set_up_bios ledger
  set_up_bios-Opens bdev block_size d h queue big =
      elim (Option-cases (setup_error kernel.bio_setup)) [
        | inr (e, bad) ↦ rw (bad, set_up_bios) (put_bdev-Closed bdev e d h)
        | inl good ↦
            rw (good, set_up_bios)
              (record {
                name = name;
                bdev = bdev;
                block_size = block_size;
                held = ground arith;
                unskipped = unskipped;
                queue = queue;
                big = big;
                io = refl;
              })
      ]

  check_device-Opens :
      (bdev block_size : ℕ) (d : Dev)
      → kernel.releases_unset ≡ true
      → Has bdev d
      → kernel.logical_block_size bdev ≡ some block_size
      → (r : Option ℕ × Dev) × (check_device kernel name bdev block_size d ≡ done r)
        × Opens kernel r
  unfolding check_device
  check_device-Opens bdev block_size d unset h queue =
      elim (Option-cases (kernel.set_blocksize bdev)) [
        | inr (e, bad) ↦
            let (r, run, opens) = put_back_bd-Opens bdev e d unset h in
            (r, ground (arith, run), opens)
        | inl good ↦ elim (Bool-cases (ltb (kernel.i_size_read bdev) min_byte_size)) [
          | inl small ↦
              let (r, run, opens) = put_back_bd-Opens bdev etoosmall d unset h in
              (r, ground (arith, run), opens)
          | inr big ↦ (
            set_up_bios kernel name bdev block_size d,
            ground arith,
            set_up_bios-Opens bdev block_size d h queue (ground arith),
          )
        ]
      ]

  open_device-Opens :
      (d : Dev)
      → kernel.releases_unset ≡ true
      → Named d
      → (r : Option ℕ × Dev) × (open_device kernel name d ≡ done r) × Opens kernel r
  unfolding open_device
  open_device-Opens d unset h = elim (Opened-cases (kernel.blkdev_get_by_path name.text)) [
    | missing gone ↦
        (release_dev_name name enodev d, ground arith, release_dev_name-Closed enodev d h)
    | failing e bad ↦ (release_dev_name name e d, ground arith, release_dev_name-Closed e d h)
    | opening bdev good ↦
        let d' = note (opened bdev) d in
        let has : Has bdev d' = Has-opened bdev d h in
        elim (Option-cases (kernel.logical_block_size bdev)) [
          | inl no_queue ↦
              (put_bdev name bdev enodev d', ground arith, put_bdev-Closed bdev enodev d' has)
          | inr (block_size, queue) ↦
              let (r, run, opens) = check_device-Opens bdev block_size d' unset has queue in
              (r, ground (arith, run), opens)
        ]
  ]

-- What `strim` does, on memory that `kstrdup` returned: a pointer into that memory.
pub record Trims (kernel : BlockKernel) (path : List ℕ) : Type 0 where
  pub name : Name
  pub copied : kernel.kstrdup path ≢ none
  pub trimmed : kernel.strim (kernel.kstrdup path) ≡ done (some name)
  pub unskipped : name.skipped ≡ 0

-- A copy is a name that is held.
noted_copy-Named :
    (copy : Option (List ℕ)) (d : Dev) → copy ≢ none → IsClosed d → Named (noted_copy copy d)
unfolding ledger
noted_copy-Named none d copied h = absurd (copied refl)
noted_copy-Named (some text) d copied h = ground arith

module _ (kernel : BlockKernel) (unset : kernel.releases_unset ≡ true) (d : Dev)
    (h : IsClosed d) where
  pub kio_io_init-Opens :
      (kio_block_device : Option (List ℕ))
      → ((path : List ℕ) → kio_block_device ≡ some path → Trims kernel path)
      → (r : Option ℕ × Dev) × (kio_io_init kernel kio_block_device d ≡ done r) × Opens kernel r
  unfolding kio_io_init
  kio_io_init-Opens none trims = ((some 22, d), refl, h)
  kio_io_init-Opens (some path) trims =
      let t = trims path refl in
      let copy = kernel.kstrdup path in
      let (r, run, opens) =
        open_device-Opens kernel t.name t.unskipped (noted_copy copy d) unset
          (noted_copy-Named copy d t.copied h) in
      (r, ground (arith, t.trimmed, run), opens)

pub kio_io_exit-Closed :
    (kernel : BlockKernel) (d : Dev)
    → IsOpen kernel d
    → (d' : Dev) × (kio_io_exit kernel d ≡ done d') × IsClosed d' × (d'.io ≡ no_device)
unfolding kio_io_exit ledger
kio_io_exit-Closed kernel d o = (
  record {
    io = no_device;
    events = closed o.bdev ∷ freed_name o.name.skipped ∷ bio_set_released ∷ d.events;
  },
  ground (arith, o.io),
  ground (arith, o.held, o.unskipped),
  refl,
)

pub kio_io_exit_zeroes :
    (kernel : BlockKernel) (d d' : Dev) → kio_io_exit kernel d ≡ done d' → d'.io ≡ no_device
unfolding kio_io_exit
kio_io_exit_zeroes kernel d d' h =
    let (d1, released, rest) = >>=-eq-done (release_bio_set kernel d) _ h in
    let (bdev, there, last) = >>=-eq-done (load d1.io.bdev) _ rest in ground arith
