-- ===== src/Tests/Queue.antt =====
-- Runs of the list of pending operations.
use gparted_android.Prelude.{◌≡◌, refl, [], ◌∷◌, some}
use gparted_android.Prelude.Int.{pos, ◌+ℤ◌, ◌-ℤ◌}
use gparted_android.Prelude.Text.{codes, text_eq}
use gparted_android.Operation.{Operation, changing, deletion, resize_move, label_filesystem}
use gparted_android.Operation.Merge.{with_label, merge_operations}
use gparted_android.Partition.Members.{set_filesystem_label}
use gparted_android.Pending.{
  add_operation, valid_partition, merge_operation, merge_latest, operations_affect_same_partition,
  remove_operation, remove_last,
}
use gparted_android.Pending.Laws.{Added, add_operation-Added, undo_last}
use gparted_android.Pending.Boundaries.{AllAccepted, add_operation-AllAccepted}
use gparted_android.Partition.Basic.{get_sector_length}
use gparted_android.Tests.{plain, ext4_attributes, untranslated, sda1, sda}

abbrev label : Operation
label = changing label_filesystem sda sda1 (with_label (codes "A") sda1)

abbrev delete : Operation
delete = deletion sda sda1

add_operation-Added_example :
    Added untranslated sda delete
      (label ∷ [])
      (add_operation untranslated sda (some delete) (label ∷ []))
add_operation-Added_example = add_operation-Added untranslated sda delete (label ∷ [])

undo_last_example :
    remove_operation remove_last
      (pos 0)
      (add_operation untranslated sda (some delete) (label ∷ [])).0
    ≡ label ∷ []
unfolding merge_operation merge_latest operations_affect_same_partition text_eq set_filesystem_label
    merge_operations
undo_last_example = undo_last untranslated sda delete (label ∷ []) refl refl

abbrev bigger : Operation
bigger = changing resize_move sda sda1 (plain (ext4_attributes (pos 4096) (pos 9000)))

bigger-AllAccepted : AllAccepted sda (bigger ∷ [])
unfolding valid_partition get_sector_length ◌+ℤ◌ ◌-ℤ◌
bigger-AllAccepted = (refl, tt)

add_operation-AllAccepted_example :
    AllAccepted sda (add_operation untranslated sda (some label) (bigger ∷ [])).0
add_operation-AllAccepted_example =
    add_operation-AllAccepted sda untranslated label (bigger ∷ []) tt bigger-AllAccepted
