-- ===== src/Operation/Place.antt =====
-- Where a search of src/Operation.cc ends in a vector in order, with the vector written as the
-- partitions before, one in its place, and the partitions behind.
use gparted_android.Prelude.{
  ◌≡◌, refl, ap, false, some, List, [], ◌∷◌, ◌++◌, length, set, Bool-cases, inl, inr, arith,
}
use gparted_android.Prelude.Int.{ℤ, pos, ◌+ℤ◌, ◌<ℤ◌, ◌≤ℤ◌, int_laws}
use gparted_android.Partition.{Partition, type_is, type_unallocated}
use gparted_android.PartitionVector.{erase, next_index}
use gparted_android.Unallocated.Layout.{InOrder, allocated}
use gparted_android.Operation.Visual.{encloses, find_index}
use gparted_android.Operation.Search.{SamePlace, encloses_same}

-- A partition further on lies behind `lo`.
lies_behind :
    (lo hi : ℤ) (before after : List Partition) (p : Partition)
    → InOrder lo hi (before ++ (p ∷ after))
    → (lo ≤ℤ p.sector_start) × (p.sector_start ≤ℤ p.sector_end)
lies_behind lo hi [] after p o = (o.0, o.1)
lies_behind lo hi (q ∷ before) after p o =
    let (k, l) = lies_behind (q.sector_end +ℤ pos 1) hi before after p o.3 in
    (omega (int_laws, k, o.0, o.1), l)

encloses_not :
    (p q r : Partition)
    → SamePlace r p
    → p.sector_start ≤ℤ p.sector_end
    → q.sector_end <ℤ p.sector_start
    → encloses r q ≡ false
encloses_not p q r s k l = rw (s.start, s.end) (ground arith)

-- The search ends at the partition that lies where the one that is looked for lies.
pub find_index-at :
    (lo hi : ℤ) (r : Partition) (before after : List Partition) (p : Partition)
    → InOrder lo hi (before ++ (p ∷ after))
    → SamePlace r p
    → find_index r (before ++ (p ∷ after)) ≡ some (length before)
unfolding find_index
find_index-at lo hi r [] after p o s = rw (encloses_same r p s) refl
find_index-at lo hi r (q ∷ before) after p o s =
    let (k, l) = lies_behind (q.sector_end +ℤ pos 1) hi before after p o.3 in
    rw (encloses_not p q r s l (omega (int_laws, k)))
      (ap next_index (find_index-at (q.sector_end +ℤ pos 1) hi r before after p o.3 s))

pub set-at :
    (n p : Partition) (before after : List Partition)
    → set (before ++ (p ∷ after)) (length before) n ≡ before ++ (n ∷ after)
set-at n p [] after = refl
set-at n p (q ∷ before) after = ap (◌∷◌ q) (set-at n p before after)

pub erase-at :
    (p : Partition) (before after : List Partition)
    → erase (before ++ (p ∷ after)) (length before) ≡ before ++ after
unfolding erase
erase-at p [] after = refl
erase-at p (q ∷ before) after = ap (◌∷◌ q) (erase-at p before after)

pub allocated-append :
    (before after : List Partition)
    → allocated (before ++ after) ≡ allocated before ++ allocated after
allocated-append [] after = refl
allocated-append (q ∷ before) after = elim (Bool-cases (type_is q.type type_unallocated)) [
  | inl h ↦ rw (h) (allocated-append before after)
  | inr h ↦ rw (h) (ap (◌∷◌ q) (allocated-append before after))
]
