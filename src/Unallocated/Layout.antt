-- ===== src/Unallocated/Layout.antt =====
-- What a vector of partitions must be to lie on a disk, and to leave no space unshown.
use gparted_android.Prelude.{◌≡◌, ◌⊎◌, if◌then◌else◌, true, List, [], ◌∷◌}
use gparted_android.Prelude.Int.{ℤ, pos, ◌+ℤ◌, ◌-ℤ◌, ◌≤ℤ◌, ◌<ℤ◌}
use gparted_android.Partition.{Partition, type_logical, type_unallocated, type_is}

-- In order, not overlapping, each with its start before its end, all between `lo` and `hi`.
abbrev pub InOrder : ℤ → ℤ → List Partition → Type 0
InOrder lo hi [] = Unit
InOrder lo hi (p ∷ ps) =
    (lo ≤ℤ p.sector_start)
    × (p.sector_start ≤ℤ p.sector_end)
    × (p.sector_end ≤ℤ hi)
    × InOrder (p.sector_end +ℤ pos 1) hi ps

-- From `lo`, where a partition has just ended, no gap of more than `grain` sectors is left, one of
-- `grain` only before a logical partition, and less than `grain` at the end.
abbrev pub Covers : ℤ → ℤ → ℤ → List Partition → Type 0
Covers grain lo hi [] = hi -ℤ lo +ℤ pos 1 <ℤ grain
Covers grain lo hi (p ∷ ps) =
    (p.sector_start -ℤ lo ≤ℤ grain)
    × ((type_is p.type type_logical ≡ true) ⊎ (p.sector_start -ℤ lo <ℤ grain))
    × Covers grain (p.sector_end +ℤ pos 1) hi ps

-- The same from the start of the space, where a gap of `grain` sectors may be left.
abbrev pub CoversAll : ℤ → ℤ → ℤ → List Partition → Type 0
CoversAll grain lo hi [] = ⊥
CoversAll grain lo hi (p ∷ ps) =
    (p.sector_start -ℤ lo ≤ℤ grain) × Covers grain (p.sector_end +ℤ pos 1) hi ps

-- The partitions that are not unallocated space.
abbrev pub allocated : List Partition → List Partition
allocated [] = []
allocated (p ∷ ps) = if type_is p.type type_unallocated then allocated ps else p ∷ allocated ps
