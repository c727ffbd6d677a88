-- ===== src/Tests/Logicals.antt =====
-- Runs of the layout operations inside an extended partition.
use gparted_android.Prelude.{
  ◌≡◌, refl, List, [], ◌∷◌, ◌++◌, true, false, none, some, set, get_elem?, arith,
}
use gparted_android.Prelude.Int.{pos, ◌+ℤ◌, ◌/ℤ◌, ◌≤ℤ◌}
use gparted_android.Partition.{
  Partition, Attributes, none_left, first, type_extended, type_logical, logicals, with_logicals,
}
use gparted_android.PartitionVector.{find_extended_partition}
use gparted_android.Unallocated.{grain}
use gparted_android.Unallocated.Layout.{allocated}
use gparted_android.Operation.Visual.{find_index, delete_visual, insert_new}
use gparted_android.Operation.LogicalLaws.{
  ShowsLogicals, LeavesLogicals, delete_visual-ShowsLogicals, insert_new-ShowsLogicals,
}
use gparted_android.Tests.{untranslated, ext4_attributes, plain, sda}

abbrev logical : Attributes
logical = record (ext4_attributes (pos 6144) (pos 10239)) {
  type = type_logical;
  partition_number = pos 5;
  inside_extended = true;
}

abbrev extended : Partition
extended = record {
  attributes = record (ext4_attributes (pos 2048) (pos 20479)) { type = type_extended };
  luks = none;
  logical_vector = first logical none none_left none_left;
}

abbrev smaller : Partition
smaller = plain (record logical { sector_start = pos 7000; sector_end = pos 8000 })

a_sector : pos 1 ≤ℤ grain (pos 512)
unfolding ◌/ℤ◌
a_sector = omega arith

-- A second logical partition behind the deleted one.
abbrev behind : Attributes
behind = record (ext4_attributes (pos 10240) (pos 12287)) {
  type = type_logical;
  partition_number = pos 6;
  inside_extended = true;
}

abbrev two_logicals : Partition
two_logicals = record extended {
  logical_vector = first logical none none_left (first behind none none_left none_left);
}

delete_visual-ShowsLogicals_example :
    (ls : List Partition) × (get_elem?
        (delete_visual untranslated sda (plain logical) (two_logicals ∷ []))
        0
      ≡ some (with_logicals ls two_logicals))
    × LeavesLogicals untranslated sda two_logicals false
        (pos 5)
        (allocated [] ++ allocated (plain behind ∷ []))
        ls
unfolding find_extended_partition ◌+ℤ◌
delete_visual-ShowsLogicals_example =
    delete_visual-ShowsLogicals untranslated sda two_logicals (plain logical) (plain logical) []
      (plain behind ∷ []) (two_logicals ∷ []) 0 a_sector (omega arith) refl (omega arith) refl refl
      refl (record { start = refl; end = refl })

insert_new-ShowsLogicals_example :
    (ls : List Partition) × (get_elem? (insert_new untranslated sda smaller (extended ∷ [])) 0
      ≡ some (with_logicals ls extended))
    × ShowsLogicals sda extended (allocated (set (logicals extended) 0 smaller)) ls
unfolding find_extended_partition find_index
insert_new-ShowsLogicals_example =
    insert_new-ShowsLogicals untranslated sda extended smaller (extended ∷ []) 0 0 a_sector
      (omega arith) (omega arith) refl (omega arith) refl refl refl
