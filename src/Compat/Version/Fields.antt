-- ===== src/Compat/Version/Fields.antt =====
-- The versions on which the submission reads what a bio has.
use kernel_io.Common.{ℕ, ◌<◌, ◌≤◌, ◌≡◌, ◌⊎◌, ◌↔◌, All, arith}
use kernel_io.Compat.Version.{field_of_bio_has_disk, fields_of_remap, fields_of_submit}

-- The later version has the greater code.
pub record Ordered (kernel_version : ℕ → ℕ → ℕ → ℕ) : Type 0 where
  pub first : kernel_version 4 13 0 < kernel_version 5 9 0
  pub second : kernel_version 5 9 0 < kernel_version 5 11 0
  pub third : kernel_version 5 11 0 < kernel_version 5 12 0

-- The fields of a bio that the third way of kio_io_submit reads are all the field that
-- bio_has_disk takes a bio to have exactly on kernels from 4.13 and before 5.9, and from 5.12 on,
-- provided that KERNEL_VERSION gives 4.13, 5.9, 5.11 and 5.12 increasing codes.
pub submit_fields_iff :
    (kernel_version : ℕ → ℕ → ℕ → ℕ) (code : ℕ)
    → Ordered kernel_version
    → All
        (λ f. f ≡ field_of_bio_has_disk kernel_version code)
        (fields_of_submit kernel_version code)
      ↔ ((kernel_version 4 13 0 ≤ code) × (code < kernel_version 5 9 0))
        ⊎ (kernel_version 5 12 0 ≤ code)
unfolding field_of_bio_has_disk fields_of_remap fields_of_submit
submit_fields_iff kernel_version code o = (
  λ h. ground (arith, o.first, o.second, o.third),
  λ h. ground (arith, o.first, o.second, o.third),
)
