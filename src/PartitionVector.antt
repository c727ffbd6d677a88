-- ===== src/PartitionVector.antt =====
-- src/PartitionVector.cc and include/PartitionVector.h: a vector that owns its partitions. A copy
-- clones each of them, so a vector is the list of its partitions as values, and an index that the
-- code returns as -1 is `none` here.
use gparted_android.Prelude.{
  ℕ, zero, suc, if◌then◌else◌, Option, none, some, List, [], ◌∷◌, ◌++◌, set,
}
use gparted_android.Partition.{Partition, type_extended, type_is}

-- The index that a search in the rest of a vector returns, seen from one place further on.
abbrev pub next_index : Option ℕ → Option ℕ
next_index none = none
next_index (some i) = some (suc i)

unfoldable pub pop_back : List Partition → List Partition
pop_back [] = []
pop_back (p ∷ []) = []
pop_back (p ∷ q ∷ ps) = p ∷ pop_back (q ∷ ps)

unfoldable pub erase : List Partition → ℕ → List Partition
erase [] i = []
erase (p ∷ ps) zero = ps
erase (p ∷ ps) (suc i) = p ∷ erase ps i

unfoldable pub push_back_adopt : List Partition → Partition → List Partition
push_back_adopt ps p = ps ++ p ∷ []

unfoldable pub insert_adopt : List Partition → ℕ → Partition → List Partition
insert_adopt ps zero p = p ∷ ps
insert_adopt [] (suc i) p = p ∷ []
insert_adopt (q ∷ ps) (suc i) p = q ∷ insert_adopt ps i p

unfoldable pub replace_at : List Partition → ℕ → Partition → List Partition
replace_at ps n p = set ps n p

unfoldable pub find_extended_partition : List Partition → Option ℕ
find_extended_partition [] = none
find_extended_partition (p ∷ ps) =
    if type_is p.type type_extended then some 0 else next_index (find_extended_partition ps)
