-- ===== src/Unallocated.antt =====
-- `GParted_Core::insert_unallocated` (src/GParted_Core_Adb.cc, and the same in src/GParted_Core.cc):
-- shows the space between partitions as unallocated partitions.
-- The source's loop walks the vector by index and steps over what it inserts, so each round looks at
-- two neighbours of the vector as it was: `fill_gaps p rest` is the loop from `p` on, without `p`.
pub mod Layout
pub mod Tiles
pub mod Erasing
use gparted_android.Prelude.{if◌then◌else◌, Bool, not, ◌&&◌, ◌||◌, List, [], ◌∷◌, ◌++◌}
use gparted_android.Prelude.Int.{ℤ, pos, ◌+ℤ◌, ◌-ℤ◌, ◌/ℤ◌, ltb_ℤ, leb_ℤ, eq_ℤ}
use gparted_android.Prelude.Text.{Text}
use gparted_android.Utils.{Gettext}
use gparted_android.Partition.{Partition, type_logical, type_is}
use gparted_android.Partition.Basic.{new_partition, set_unallocated}
use gparted_android.Partition.Usage.{mebibyte}

-- The last of a vector that is not empty.
abbrev pub back : Partition → List Partition → Partition
back p [] = p
back p (q ∷ rest) = back q rest

-- One mebibyte in sectors.
abbrev pub grain : ℤ → ℤ
grain sector_size = mebibyte /ℤ sector_size

abbrev pub gap : Partition → Partition → ℤ
gap p q = q.sector_start -ℤ p.sector_end -ℤ pos 1

-- Exactly one mebibyte is shown only if a logical partition does not follow.
abbrev pub shown : ℤ → Partition → Partition → Bool
shown grain p q =
    ltb_ℤ grain (gap p q) || (not (type_is q.type type_logical) && eq_ℤ (gap p q) grain)

module _ (tr : Gettext) (device_path : Text) (sector_size : ℤ) (inside_extended : Bool) where
  unfoldable pub unallocated : ℤ → ℤ → Partition
  unallocated start end =
      set_unallocated tr device_path start end sector_size inside_extended new_partition

  unfoldable pub fill_gaps : Partition → List Partition → List Partition
  fill_gaps p [] = []
  fill_gaps p (q ∷ rest) =
      let more = q ∷ fill_gaps q rest in
      if shown (grain sector_size) p q
      then unallocated (p.sector_end +ℤ pos 1) (q.sector_start -ℤ pos 1) ∷ more
      else more

  unfoldable pub fill_end : Partition → ℤ → List Partition
  fill_end last end =
      if leb_ℤ (grain sector_size) (end -ℤ last.sector_end)
      then unallocated (last.sector_end +ℤ pos 1) end ∷ []
      else []

  -- The gaps after the first partition, and the space after the last.
  unfoldable pub close : Partition → List Partition → ℤ → List Partition
  unfolding fill_gaps fill_end
  close p rest end = fill_gaps p rest ++ fill_end (back p (fill_gaps p rest)) end

  unfoldable pub insert_unallocated : List Partition → ℤ → ℤ → List Partition
  unfolding close unallocated
  insert_unallocated [] start end = unallocated start end ∷ []
  insert_unallocated (p ∷ rest) start end =
      let u : Partition = unallocated start (p.sector_start -ℤ pos 1) in
      if ltb_ℤ (grain sector_size) (p.sector_start -ℤ start)
      then u ∷ close u (p ∷ rest) end
      else p ∷ close p rest end
