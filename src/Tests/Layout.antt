-- ===== src/Tests/Layout.antt =====
-- Runs of the layout operations on a small disk.
use gparted_android.Prelude.{◌≡◌, refl, List, [], ◌∷◌, ◌++◌, inl, true, false, set, arith}
use gparted_android.Prelude.Int.{pos, ◌+ℤ◌, ◌-ℤ◌, ◌/ℤ◌}
use gparted_android.Prelude.Text.{codes, text_eq}
use gparted_android.Partition.{Partition, type_unallocated}
use gparted_android.Partition.Basic.{same_partition}
use gparted_android.Partition.Members.{set_filesystem_label}
use gparted_android.Unallocated.{grain, insert_unallocated}
use gparted_android.Unallocated.Layout.{InOrder, CoversAll, allocated}
use gparted_android.Unallocated.Tiles.{insert_unallocated_tiles, insert_unallocated_idle}
use gparted_android.Operation.{changing, label_filesystem}
use gparted_android.Operation.Visual.{
  resize_normal_visual, find_index, delete_visual, insert_new, apply_to_visual,
}
use gparted_android.Operation.VisualLaws.{Shows, IsUsable, delete_visual-Shows, insert_new-Shows}
use gparted_android.Operation.Merge.{merge_operations, with_label}
use gparted_android.Operation.MergeLaws.{Chained, labelled, merge_shows_both}
use gparted_android.Operation.ResizeLaws.{Fits, resize_normal_visual-Shows}
use gparted_android.Tests.{untranslated, ext4_attributes, plain, sda1, sda}

abbrev shown_sda : List Partition
shown_sda =
    insert_unallocated untranslated (codes "/dev/sda") (pos 512) false (sda1 ∷ []) (pos 0)
      (pos 20479)

insert_unallocated_tiles_example :
    InOrder (pos 0) (pos 20479) shown_sda
    × CoversAll (grain (pos 512)) (pos 0) (pos 20479) shown_sda
    × (allocated shown_sda ≡ allocated (sda1 ∷ []))
unfolding ◌/ℤ◌
insert_unallocated_tiles_example =
    insert_unallocated_tiles untranslated (codes "/dev/sda") (pos 512) false (sda1 ∷ []) (pos 0)
      (pos 20479) (omega arith) (omega arith) (omega arith)

insert_unallocated_idle_example :
    insert_unallocated untranslated
      (codes "/dev/sda")
      (pos 512)
      false
      (plain (ext4_attributes (pos 0) (pos 20479)) ∷ [])
      (pos 0)
      (pos 20479)
    ≡ plain (ext4_attributes (pos 0) (pos 20479)) ∷ []
unfolding ◌/ℤ◌ ◌+ℤ◌ ◌-ℤ◌
insert_unallocated_idle_example =
    insert_unallocated_idle untranslated (codes "/dev/sda") (pos 512) false _ (pos 0) (pos 20479)
      (omega arith, omega arith)

sda-IsUsable : IsUsable sda
unfolding ◌/ℤ◌
sda-IsUsable = record { some_sector = omega arith; small_sectors = (omega arith) }

-- A partition before, which stays.
abbrev sda0 : Partition
sda0 = plain (ext4_attributes (pos 2048) (pos 4095))

delete_visual-Shows_example :
    Shows sda
      (allocated (sda0 ∷ []) ++ allocated [])
      (delete_visual untranslated sda sda1 ((sda0 ∷ []) ++ (sda1 ∷ [])))
unfolding ◌-ℤ◌ ◌+ℤ◌
delete_visual-Shows_example =
    delete_visual-Shows untranslated sda sda1 sda1 (sda0 ∷ []) [] sda-IsUsable (omega arith) refl
      (record { start = refl; end = refl })

abbrev sda2 : Partition
sda2 = plain (ext4_attributes (pos 5000) (pos 7000))

insert_new-Shows_example :
    Shows sda (allocated (set (sda1 ∷ []) 0 sda2)) (insert_new untranslated sda sda2 (sda1 ∷ []))
unfolding ◌-ℤ◌ find_index
insert_new-Shows_example =
    insert_new-Shows untranslated sda sda2 (sda1 ∷ []) 0 sda-IsUsable (omega arith) refl
      (omega arith) refl

abbrev once : Partition
once = with_label (codes "A") sda1

abbrev twice : Partition
twice = with_label (codes "B") once

sda1-Chained : Chained sda1 once once
unfolding same_partition set_filesystem_label text_eq
sda1-Chained = record {
  same = refl;
  at_original = record { start = refl; end = refl };
  at_new = record { start = refl; end = refl };
  inside = refl;
  not_encrypted = refl;
  partitioned = refl;
  partitioned_too = refl;
}

merge_shows_both_example :
    (merge_operations untranslated
        (changing label_filesystem sda sda1 once)
        (changing label_filesystem sda once twice)
      ≡ (changing label_filesystem sda sda1 twice, true))
    × (apply_to_visual untranslated (changing label_filesystem sda sda1 twice) (sda1 ∷ [])
        ≡ apply_to_visual untranslated
            (changing label_filesystem sda once twice)
            (apply_to_visual untranslated (changing label_filesystem sda sda1 once) (sda1 ∷ [])))
merge_shows_both_example =
    merge_shows_both untranslated label_filesystem sda sda sda1 once once twice (sda1 ∷ [])
      sda1-Chained (labelled (codes "B") refl)

abbrev grown : Partition
grown = plain (ext4_attributes (pos 2048) (pos 12287))

abbrev space : Partition
space = record sda1 {
  attributes = record (ext4_attributes (pos 0) (pos 4095)) { type = type_unallocated };
}

grown-Fits : Fits sda (space ∷ []) [] grown
unfolding ◌-ℤ◌
grown-Fits = record {
  from = omega arith;
  order = omega arith;
  to = omega arith;
  behind_the_others = inl refl;
  before_the_others = tt;
}

resize_normal_visual-Shows_example :
    Shows sda
      (allocated (space ∷ []) ++ allocated (grown ∷ []))
      (resize_normal_visual untranslated sda sda1 grown ((space ∷ []) ++ (sda1 ∷ [])))
unfolding ◌-ℤ◌ ◌+ℤ◌
resize_normal_visual-Shows_example =
    resize_normal_visual-Shows untranslated sda sda1 grown sda1 (space ∷ []) [] sda-IsUsable refl
      (omega arith) (record { start = refl; end = refl }) grown-Fits
