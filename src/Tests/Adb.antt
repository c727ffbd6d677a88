-- ===== src/Tests/Adb.antt =====
-- Runs over adb, on a device whose table has one row.
use gparted_android.Prelude.{◌≡◌, refl, true, [], ◌∷◌}
use gparted_android.Prelude.Int.{pos, negsuc}
use gparted_android.Prelude.Text.{codes, is_prefix, text_eq}
use gparted_android.Partition.{Attributes}
use gparted_android.Operation.{deletion}
use gparted_android.Adb.{Phone, create}
use gparted_android.Adb.Command.{rm_command, print_command, contains}
use gparted_android.Adb.Calibrate.{
  lines, first_token, atoi, skip_spaces, up_to_space, number_of_digits,
}
use gparted_android.Adb.Apply
use gparted_android.Adb.Apply.{apply_operation_to_disk}
use gparted_android.Adb.Laws.{
  delete_unnumbered, driver_calls-create, driver_calls, commands, made_partition,
}
use gparted_android.Tests.{plain, ext4_attributes, sda}

abbrev phone : Phone
phone = record {
  output = λ h command. codes "Number Start End\n 1 2048s 4095s\n 2 4096s 8191s\n";
  has_object = λ t. true;
  does = λ h c. true;
}

-- New partitions, the second one behind the first.
abbrev second : Attributes
second = record (ext4_attributes (pos 4096) (pos 8191)) { partition_number = negsuc 0 }

abbrev third : Attributes
third = record (ext4_attributes (pos 8192) (pos 9000)) { partition_number = negsuc 0 }

delete_unnumbered_example :
    commands (apply_operation_to_disk phone (deletion sda (plain second)) []).1
    ≡ rm_command (codes "/dev/sda") (pos 1) ∷ print_command (codes "/dev/sda") ∷ []
unfolding lines text_eq is_prefix first_token skip_spaces up_to_space atoi number_of_digits
delete_unnumbered_example =
    delete_unnumbered phone sda (plain second) [] (pos 1) [] [] (codes " 2 4096s 8191s" ∷ [])
      (codes "Number Start End") (codes " 1 2048s 4095s") refl refl tt refl tt
      (record { not_head = refl; filled = refl; number = refl; positive = refl })

driver_calls-create_example :
    driver_calls (gparted_android.Adb.Apply.create phone third []).1
    ≡ create (made_partition third) ∷ []
unfolding contains is_prefix
driver_calls-create_example = driver_calls-create phone third [] refl refl refl refl
