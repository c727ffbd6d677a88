-- ===== src/Adb/Apply.antt =====
-- The operations (src/GParted_Core_Adb.cc).
use gparted_android.Prelude.{Bool, true, false, ◌&&◌, ◌||◌, not, Option, none, some, ◌++◌}
use gparted_android.Prelude.Int.{pos, eq_ℤ}
use gparted_android.Prelude.Text.{Text, codes}
use gparted_android.Utils.{num_to_str}
use gparted_android.Partition.{
  FsType, Attributes, Partition, PartitionType, type_logical, type_extended, stat_real,
  fs_unallocated, fs_unknown, fs_extended, fs_fat16, fs_fat32, fs_ntfs, fs_linux_swap, fs_btrfs,
  fs_xfs, fs_exfat, with_attributes,
}
use gparted_android.Partition.Luks.{get_filesystem_partition}
use gparted_android.Operation.{Operation, deletion, changing, copying, check, change_uuid}
use gparted_android.Operation
use gparted_android.Adb.{
  Phone, Run, pure, ◌>>=◌, ◌&&&◌, branch, shell_command, call, DriverCall, write_label, write_uuid,
}
use gparted_android.Adb
use gparted_android.Adb.Command
use gparted_android.Adb.Calibrate.{calibrate_partition}

abbrev pub is_unallocated : FsType → Bool
is_unallocated fs_unallocated = true
is_unallocated _ = false

abbrev pub is_unknown : FsType → Bool
is_unknown fs_unknown = true
is_unknown _ = false

-- A partition that holds no file system of its own.
abbrev pub holds_nothing : FsType → Bool
holds_nothing fs_extended = true
holds_nothing fs_unallocated = true
holds_nothing _ = false

abbrev pub part_type : PartitionType → Text
part_type type_logical = codes "logical"
part_type type_extended = codes "extended"
part_type _ = codes "primary"

abbrev pub fs_name : FsType → Text
fs_name fs_fat16 = codes "fat16"
fs_name fs_fat32 = codes "fat32"
fs_name fs_ntfs = codes "ntfs"
fs_name fs_linux_swap = codes "linux-swap"
fs_name fs_btrfs = codes "btrfs"
fs_name fs_xfs = codes "xfs"
fs_name fs_exfat = codes "ntfs"
fs_name _ = codes "ext2"

-- `SETTLE_DEVICE_APPLY_MAX_WAIT_SECONDS`
abbrev settle_command : Text
settle_command = codes "sleep 10"

module _ (w : Phone) where
  -- After `mkpart`: the number is reset before the path is composed from it.
  abbrev pub made : Attributes → Run Attributes
  made p =
      branch (holds_nothing p.fstype)
        (pure (record p { partition_number = pos 0; status = stat_real }))
        (shell_command w settle_command >>= λ output. pure (record p {
          partition_number = pos 0;
          path = p.device_path ++ num_to_str (pos 0);
          status = stat_real;
        }))

  unfoldable pub create_partition : Attributes → Run (Option Attributes)
  create_partition p =
      gparted_android.Adb.Command.mkpart w p.device_path (part_type p.type) (fs_name p.fstype)
        p.sector_start p.sector_end
      >>= λ success. branch success (made p >>= λ q. pure (some q)) (pure none)

  -- `create_filesystem` and `format` have the same text.
  unfoldable pub create_filesystem : Attributes → Run Bool
  create_filesystem p =
      branch (holds_nothing p.fstype) (pure true)
        (branch (w.has_object p.fstype) (call w (gparted_android.Adb.create p)) (pure false))

  abbrev pub fill_created : Option Attributes → Run Bool
  fill_created none = pure false
  fill_created (some p) =
      branch (is_unallocated p.fstype || is_unknown p.fstype) (pure true) (create_filesystem p)

  unfoldable pub create : Attributes → Run Bool
  create p = create_partition p >>= fill_created

  unfoldable pub resize_move : Attributes → Attributes → Run Bool
  resize_move old new =
      branch (eq_ℤ old.sector_start new.sector_start && eq_ℤ old.sector_end new.sector_end)
        (pure true)
        (gparted_android.Adb.Command.resizepart w old.device_path old.partition_number
            new.sector_end
          >>= λ success.
              branch (success && not (eq_ℤ old.sector_start new.sector_start))
                (gparted_android.Adb.Command.move w old.device_path old.partition_number
                  new.sector_start new.sector_end)
                (pure success))

  abbrev pub with_driver : FsType → Bool → Run Bool → Run Bool
  with_driver t otherwise k = branch (w.has_object t) k (pure otherwise)

  abbrev pub label_filesystem : Attributes → Run Bool
  label_filesystem p = with_driver p.fstype true (call w (write_label p))

  abbrev pub change_filesystem_uuid : Attributes → Run Bool
  change_filesystem_uuid p = with_driver p.fstype true (call w (write_uuid p))

  abbrev pub copy : Attributes → Attributes → Run Bool
  copy src dst =
      branch (is_unallocated src.fstype || is_unallocated dst.fstype) (pure true)
        (with_driver src.fstype false (call w (gparted_android.Adb.copy src dst)))

  abbrev pub remove_filesystem : Attributes → Run Bool
  remove_filesystem p = pure true

  abbrev pub calibrated : Partition → (Partition → Run Bool) → Run Bool
  calibrated p f = calibrate_partition w p.attributes >>= λ a. f (with_attributes a p)

  unfoldable pub apply_operation_to_disk : Operation → Run Bool
  apply_operation_to_disk (deletion d original) =
      calibrated original (λ p. gparted_android.Adb.Command.rm w p.device_path p.partition_number)
  apply_operation_to_disk (changing check d original new) = pure false
  apply_operation_to_disk (changing gparted_android.Operation.create d original new) =
      create new.attributes
  apply_operation_to_disk (changing gparted_android.Operation.resize_move d original new) =
      calibrated original
        (λ p. resize_move p.attributes (record (new.attributes) { path = p.path }))
  apply_operation_to_disk (changing gparted_android.Operation.format d original new) =
      calibrated new (λ p.
        remove_filesystem (get_filesystem_partition original)
        &&& create_filesystem (get_filesystem_partition p))
  apply_operation_to_disk (changing gparted_android.Operation.label_filesystem d original new) =
      calibrated new (λ p. label_filesystem (get_filesystem_partition p))
  apply_operation_to_disk (changing change_uuid d original new) =
      calibrated new (λ p. change_filesystem_uuid (get_filesystem_partition p))
  apply_operation_to_disk (changing gparted_android.Operation.name_partition d original new) =
      calibrated new
        (λ p. gparted_android.Adb.Command.name_partition w p.device_path p.partition_number p.name)
  apply_operation_to_disk (copying d original new copied) = calibrated copied (λ s.
      remove_filesystem (get_filesystem_partition original) &&& copy s.attributes new.attributes)

  -- `set_disklabel`; the signatures are not erased on a device.
  abbrev pub set_disklabel : Text → Text → Run Bool
  set_disklabel device_path disklabel = gparted_android.Adb.Command.mklabel w device_path disklabel

  abbrev pub toggle_flag : Attributes → Text → Bool → Run Bool
  toggle_flag p flag state =
      gparted_android.Adb.Command.set_flag w p.device_path p.partition_number flag state
