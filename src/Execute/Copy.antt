-- ===== src/Execute/Copy.antt =====
-- Pasting a partition, and the check of a file system (src/GParted_Core.cc).
use gparted_android.Prelude.{Bool, true, false, ◌&&◌, not, Option, none, some}
use gparted_android.Prelude.Int.{pos, ◌+ℤ◌, ◌-ℤ◌, ◌/ℤ◌, ltb_ℤ}
use gparted_android.Partition.{Attributes, Partition, status_is, stat_copy, with_attributes}
use gparted_android.Partition.Basic.{get_byte_length}
use gparted_android.Partition.Luks.{get_filesystem_partition}
use gparted_android.Execute.{
  World, Run, pure, ◌>>=◌, ◌&&&◌, branch, reject, perform, set_type, erase_signatures,
  destination_smaller,
}
use gparted_android.Execute.Filesystem.{
  is_luks, is_swap, copy_filesystem, recreate_linux_swap_filesystem, check_repair_filesystem,
  maximize_filesystem, maximize_encryption,
}
use gparted_android.Execute.Create.{is_xfs, create_partition}
use gparted_android.Execute.Move.{boot_sector}

module _ (w : World) where
  -- After the copying of the file system `fs_src` to `fs_dst`.
  abbrev pub finish_copy : Attributes → Attributes → Run Bool
  finish_copy fs_src fs_dst =
      branch (is_swap fs_dst.fstype) (recreate_linux_swap_filesystem w fs_dst) (
        check_repair_filesystem w fs_dst
        &&& branch (ltb_ℤ (get_byte_length fs_src) (get_byte_length fs_dst))
            (maximize_filesystem w fs_dst) (pure true))

  -- Into a partition that exists. The type of an encrypted partition stays: it is set for the file
  -- system.
  abbrev pub copy_to : Attributes → Attributes → Attributes → Run Bool
  copy_to fs_src fs_dst dst =
      perform w (erase_signatures fs_dst)
      &&& perform w (set_type fs_dst)
      &&& copy_filesystem w fs_src fs_dst
      &&& boot_sector w dst
      &&& finish_copy fs_src fs_dst

  abbrev pub copy_to_created : Partition → Partition → Option Attributes → Run Bool
  copy_to_created src dst none = pure false
  copy_to_created src dst (some a) =
      copy_to (get_filesystem_partition src) (get_filesystem_partition (with_attributes a dst)) a

  unfoldable pub copy : Partition → Partition → Run Bool
  copy src dst =
      branch
        (ltb_ℤ (get_byte_length (get_filesystem_partition dst))
            (get_byte_length (get_filesystem_partition src))
          && not (is_xfs (get_filesystem_partition src).fstype))
        (reject destination_smaller)
        (branch (status_is dst.status stat_copy)
          (create_partition w dst.attributes
              ((get_byte_length src.attributes +ℤ dst.sector_size -ℤ pos 1) /ℤ dst.sector_size)
            >>= copy_to_created src dst)
          (copy_to (get_filesystem_partition src) (get_filesystem_partition dst) dst.attributes))

  -- Encryption is grown as if it were closed.
  unfoldable pub check_repair_maximize : Partition → Run Bool
  check_repair_maximize p =
      branch (is_luks p.fstype)
        (maximize_encryption w (record (p.attributes) { busy = false })
          &&& branch p.busy (maximize_filesystem w (get_filesystem_partition p)) (pure true))
        (maximize_filesystem w p.attributes)
