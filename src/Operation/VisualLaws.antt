-- ===== src/Operation/VisualLaws.antt =====
-- Deleting and creating a partition keeps the shown layout in order and complete.
use gparted_android.Prelude.{
  ℕ, zero, suc, ◌-◌, ◌≡◌, refl, ◌∙◌, true, false, Option, none, some, List, [], ◌∷◌, ◌++◌, length,
  ap, set, ltb, ◌&&◌, &&_true, Bool-cases, inl, inr, arith,
}
use gparted_android.Prelude.Int.{ℤ, pos, ◌+ℤ◌, ◌-ℤ◌, ◌≤ℤ◌, int_laws}
use gparted_android.Utils.{Gettext}
use gparted_android.Partition.{Partition}
use gparted_android.PartitionVector.{erase, replace_at, next_index}
use gparted_android.Device.{Device}
use gparted_android.Unallocated.{grain}
use gparted_android.Unallocated.Layout.{InOrder, CoversAll, allocated}
use gparted_android.Unallocated.Tiles.{insert_unallocated_tiles}
use gparted_android.Unallocated.Erasing.{
  InOrder-weaken, InOrder-erase, unallocated_at, allocated-erase_next, allocated-erase_before,
}
use gparted_android.Operation.Visual.{
  find_index, encloses, remove_next, unallocated_before, remove_original_and_adjacent_unallocated,
  fill_device, delete_visual, insert_new,
}
use gparted_android.Operation.Search.{SamePlace, edit_found-some, next_index-some}
use gparted_android.Operation.Place.{find_index-at, erase-at, allocated-append}

-- A shown layout of the device: in order, nothing unshown, and these partitions in it.
abbrev pub Shows : Device → List Partition → List Partition → Type 0
Shows d kept qs =
    InOrder (pos 0) (d.length -ℤ pos 1) qs
    × CoversAll (grain d.sector_size) (pos 0) (d.length -ℤ pos 1) qs
    × (allocated qs ≡ kept)

-- The device has a sector, and a sector is not more than a mebibyte.
pub record IsUsable (d : Device) : Type 0 where
  pub some_sector : pos 1 ≤ℤ d.length
  pub small_sectors : pos 1 ≤ℤ grain d.sector_size

pub fill_device-Shows :
    (tr : Gettext) (d : Device) (ps : List Partition)
    → IsUsable d
    → InOrder (pos 0) (d.length -ℤ pos 1) ps
    → Shows d (allocated ps) (fill_device tr d ps)
fill_device-Shows tr d ps u o =
    insert_unallocated_tiles tr d.path d.sector_size false ps (pos 0) (d.length -ℤ pos 1)
      u.small_sectors (omega (int_laws, u.some_sector)) o

remove_next-InOrder :
    (lo hi : ℤ) (ps : List Partition) (i : ℕ) → InOrder lo hi ps → InOrder lo hi (remove_next i ps)
remove_next-InOrder lo hi ps i o = elim (Bool-cases (unallocated_at ps (suc i))) [
  | inl h ↦ rw h (InOrder-erase lo hi ps (suc i) o)
  | inr h ↦ rw h o
]

allocated-remove_next :
    (ps : List Partition) (i : ℕ) → allocated (erase (remove_next i ps) i) ≡ allocated (erase ps i)
allocated-remove_next ps i = elim (Bool-cases (unallocated_at ps (suc i))) [
  | inl h ↦ rw h (allocated-erase_next ps i h)
  | inr h ↦ rw h refl
]

pub remove_original-InOrder :
    (lo hi : ℤ) (ps : List Partition) (i : ℕ)
    → InOrder lo hi ps
    → InOrder lo hi (remove_original_and_adjacent_unallocated i ps)
unfolding remove_original_and_adjacent_unallocated
remove_original-InOrder lo hi ps i o =
    let q = remove_next-InOrder lo hi ps i o in
    elim (Bool-cases (unallocated_before i (remove_next i ps))) [
      | inl h ↦ simp h (InOrder-erase lo hi _ _ (InOrder-erase lo hi _ _ q))
      | inr h ↦ simp h (InOrder-erase lo hi _ _ q)
    ]

-- Only the partition at the index goes.
pub allocated-remove_original :
    (ps : List Partition) (i : ℕ)
    → allocated (remove_original_and_adjacent_unallocated i ps) ≡ allocated (erase ps i)
unfolding remove_original_and_adjacent_unallocated
allocated-remove_original ps zero = allocated-remove_next ps zero
allocated-remove_original ps (suc i) =
    let e : suc i - 1 ≡ i = omega arith in
    simp e (elim (Bool-cases (ltb 0 (suc i) && unallocated_at (remove_next (suc i) ps) i)) [
      | inl h ↦ simp h (
          allocated-erase_before (remove_next (suc i) ps) i (&&_true (ltb 0 (suc i)) _ h).1
          ∙ allocated-remove_next ps (suc i))
      | inr h ↦ simp h (allocated-remove_next ps (suc i))
    ])

-- Deleting a partition outside the extended partition takes the partition with its boundaries from the
-- shown ones, and nothing else: the others stay as they are and in order, and the space is shown.
pub delete_visual-Shows :
    (tr : Gettext) (d : Device) (original p : Partition) (before after : List Partition)
    → IsUsable d
    → InOrder (pos 0) (d.length -ℤ pos 1) (before ++ (p ∷ after))
    → original.inside_extended ≡ false
    → SamePlace original p
    → Shows d
        (allocated before ++ allocated after)
        (delete_visual tr d original (before ++ (p ∷ after)))
unfolding delete_visual
delete_visual-Shows tr d original p before after u o outside s =
    let ps = before ++ (p ∷ after) in
    let kept =
      allocated-remove_original ps (length before)
      ∙ ap allocated (erase-at p before after)
      ∙ allocated-append before after in
    simp outside (
      rw
        (edit_found-some original _ ps (length before)
          (find_index-at _ _ original before after p o s))
        (rw (kept) at
          (fill_device-Shows tr d _ u (remove_original-InOrder _ _ ps (length before) o))))

enclosed :
    (p q : Partition)
    → encloses p q ≡ true
    → (q.sector_start ≤ℤ p.sector_start) × (p.sector_end ≤ℤ q.sector_end)
enclosed p q h = ground arith

next_index-ne-zero : (o : Option ℕ) → next_index o ≡ some 0 → ⊥
next_index-ne-zero none h = cc
next_index-ne-zero (some i) h = ground arith

find_index_zero :
    (p q : Partition) (ps : List Partition) → find_index p (q ∷ ps) ≡ some 0 → encloses p q ≡ true
unfolding find_index
find_index_zero p q ps h = elim (Bool-cases (encloses p q)) [
  | inl t ↦ t
  | inr f ↦ absurd (next_index-ne-zero _ (rw (f, find_index) at h))
]

-- What the search finds encloses the partition, so the partition can stand in its place.
pub find_index-InOrder :
    (lo hi : ℤ) (p : Partition) (ps : List Partition) (i : ℕ)
    → InOrder lo hi ps
    → p.sector_start ≤ℤ p.sector_end
    → find_index p ps ≡ some i
    → InOrder lo hi (set ps i p)
unfolding find_index
find_index-InOrder lo hi p [] i o k h = cc
find_index-InOrder lo hi p (q ∷ ps) zero o k h =
    let (a, b) = enclosed p q (find_index_zero p q ps h) in
    (
      omega (int_laws, o.0, a),
      k,
      omega (int_laws, o.2, b),
      InOrder-weaken (q.sector_end +ℤ pos 1) (p.sector_end +ℤ pos 1) hi ps (omega (int_laws, b))
          o.3,
    )
find_index-InOrder lo hi p (q ∷ ps) (suc i) o k h = elim (Bool-cases (encloses p q)) [
  | inl t ↦ cc (rw (t, find_index) at h)
  | inr f ↦ (
    o.0,
    o.1,
    o.2,
    find_index-InOrder (q.sector_end +ℤ pos 1) hi p ps i o.3 k
        (next_index-some _ i (rw (f, find_index) at h)),
  )
]

-- Creating a partition outside the extended partition, where it lies inside a shown one, puts it in
-- place of that one, and shows the space that is left.
pub insert_new-Shows :
    (tr : Gettext) (d : Device) (new : Partition) (ps : List Partition) (i : ℕ)
    → IsUsable d
    → InOrder (pos 0) (d.length -ℤ pos 1) ps
    → new.inside_extended ≡ false
    → new.sector_start ≤ℤ new.sector_end
    → find_index new ps ≡ some i
    → Shows d (allocated (set ps i new)) (insert_new tr d new ps)
unfolding insert_new replace_at
insert_new-Shows tr d new ps i u o outside k h = simp outside (
    rw (edit_found-some new _ ps i h)
      (fill_device-Shows tr d _ u (find_index-InOrder _ _ new ps i o k h)))
