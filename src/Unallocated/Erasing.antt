-- ===== src/Unallocated/Erasing.antt =====
-- Taking partitions out of a vector, or one in place of another, keeps the layout.
use gparted_android.Prelude.{ℕ, zero, suc, ◌≡◌, refl, Bool, true, false, List, [], ◌∷◌}
use gparted_android.Prelude.Int.{ℤ, pos, ◌+ℤ◌, ◌≤ℤ◌, int_laws}
use gparted_android.Partition.{Partition, type_is, type_unallocated}
use gparted_android.PartitionVector.{erase}
use gparted_android.Unallocated.Layout.{InOrder, allocated}

pub InOrder-weaken :
    (lo lo' hi : ℤ) (ps : List Partition) → lo' ≤ℤ lo → InOrder lo hi ps → InOrder lo' hi ps
InOrder-weaken lo lo' hi [] h o = tt
InOrder-weaken lo lo' hi (p ∷ ps) h o = (omega (int_laws, o.0), o.1, o.2, o.3)

pub InOrder-erase :
    (lo hi : ℤ) (ps : List Partition) (i : ℕ) → InOrder lo hi ps → InOrder lo hi (erase ps i)
unfolding erase
InOrder-erase lo hi [] i o = tt
InOrder-erase lo hi (p ∷ ps) zero o =
    InOrder-weaken (p.sector_end +ℤ pos 1) lo hi ps (omega (int_laws, o.0, o.1)) o.3
InOrder-erase lo hi (p ∷ ps) (suc i) o =
    (o.0, o.1, o.2, InOrder-erase (p.sector_end +ℤ pos 1) hi ps i o.3)

-- Whether the partition at the index is unallocated space.
abbrev pub unallocated_at : List Partition → ℕ → Bool
unallocated_at [] i = false
unallocated_at (p ∷ ps) zero = type_is p.type type_unallocated
unallocated_at (p ∷ ps) (suc i) = unallocated_at ps i

pub allocated-erase :
    (ps : List Partition) (i : ℕ)
    → unallocated_at ps i ≡ true
    → allocated (erase ps i) ≡ allocated ps
unfolding erase
allocated-erase [] i h = refl
allocated-erase (p ∷ ps) zero h = rw h refl
allocated-erase (p ∷ ps) (suc i) h = rw (allocated-erase ps i h) refl

-- The space after the partition that goes.
pub allocated-erase_next :
    (ps : List Partition) (i : ℕ)
    → unallocated_at ps (suc i) ≡ true
    → allocated (erase (erase ps (suc i)) i) ≡ allocated (erase ps i)
unfolding erase
allocated-erase_next [] i h = refl
allocated-erase_next (p ∷ ps) zero h = allocated-erase ps zero h
allocated-erase_next (p ∷ ps) (suc i) h = rw (allocated-erase_next ps i h) refl

-- The space before it.
pub allocated-erase_before :
    (ps : List Partition) (i : ℕ)
    → unallocated_at ps i ≡ true
    → allocated (erase (erase ps i) i) ≡ allocated (erase ps (suc i))
unfolding erase
allocated-erase_before [] i h = refl
allocated-erase_before (p ∷ ps) zero h = rw h refl
allocated-erase_before (p ∷ ps) (suc i) h = rw (allocated-erase_before ps i h) refl
