-- ===== src/Kernel/Ledger.antt =====
-- What a trace says of the kobjects and of the memory of the threads.
use kernel_io.Common.{ℕ, suc, List, [], ◌∷◌, ◌==◌, if◌then◌else◌}
use kernel_io.Kernel.{Event, created, put, zalloc, freed}

-- How often a kobject has been created.
abbrev pub creations : ℕ → List Event → ℕ
creations k [] = 0
creations k (created j ∷ trace) = if j == k then suc (creations k trace) else creations k trace
creations k (_ ∷ trace) = creations k trace

-- How often a kobject has been put.
abbrev pub puts : ℕ → List Event → ℕ
puts k [] = 0
puts k (put j ∷ trace) = if j == k then suc (puts k trace) else puts k trace
puts k (_ ∷ trace) = puts k trace

abbrev pub allocations : List Event → ℕ
allocations [] = 0
allocations (zalloc n ∷ trace) = suc (allocations trace)
allocations (_ ∷ trace) = allocations trace

abbrev pub frees : List Event → ℕ
frees [] = 0
frees (freed ∷ trace) = suc (frees trace)
frees (_ ∷ trace) = frees trace
