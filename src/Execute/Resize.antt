-- ===== src/Execute/Resize.antt =====
-- Resizing a partition with its file system, from the same start (src/GParted_Core.cc).
use gparted_android.Prelude.{Bool, true, false, ◌&&◌, not}
use gparted_android.Prelude.Int.{ltb_ℤ, eq_ℤ}
use gparted_android.Partition.{Attributes, Partition}
use gparted_android.Partition.Basic.{get_sector_length}
use gparted_android.Partition.Luks.{get_filesystem_partition}
use gparted_android.Execute.{
  World, Run, pure, ◌&&&◌, branch, reject, start_changes, not_luks, closed_luks_shrinks, open_luks,
}
use gparted_android.Execute.Filesystem.{
  is_luks, is_swap, is_open_luks, shrink_encryption, maximize_encryption, shrink_filesystem,
  maximize_filesystem, recreate_linux_swap_filesystem, check_repair_filesystem,
}
use gparted_android.Execute.Partition.{resize_move_partition}

module _ (w : World) where
  unfoldable pub resize_plain : Attributes → Attributes → Run Bool
  resize_plain old new = branch (is_open_luks old) (reject open_luks) (
      branch (is_swap new.fstype)
        (resize_move_partition w old new true &&& recreate_linux_swap_filesystem w new)
        (branch (ltb_ℤ (get_sector_length new) (get_sector_length old))
          (check_repair_filesystem w new
            &&& shrink_filesystem w old new
            &&& resize_move_partition w old new false)
          (branch (ltb_ℤ (get_sector_length old) (get_sector_length new))
            (check_repair_filesystem w new
              &&& resize_move_partition w old new true
              &&& maximize_filesystem w new)
            (pure true))))

  -- The two branches for linux swap in an open encryption volume; the code goes on if neither is
  -- taken.
  abbrev pub resize_encrypted_swap : Attributes → Attributes → Attributes → Run Bool
  resize_encrypted_swap old new fs_new =
      branch (ltb_ℤ (get_sector_length new) (get_sector_length old))
        (shrink_encryption w old new
          &&& resize_move_partition w old new false
          &&& recreate_linux_swap_filesystem w fs_new)
        (branch (ltb_ℤ (get_sector_length old) (get_sector_length new))
          (resize_move_partition w old new true
            &&& maximize_encryption w new
            &&& recreate_linux_swap_filesystem w fs_new)
          (pure true))

  abbrev pub resize_encrypted_filesystem :
      Attributes → Attributes → Attributes → Attributes → Run Bool
  resize_encrypted_filesystem old new fs_old fs_new =
      branch (ltb_ℤ (get_sector_length new) (get_sector_length old))
        (check_repair_filesystem w fs_old
          &&& shrink_filesystem w fs_old fs_new
          &&& shrink_encryption w old new
          &&& resize_move_partition w old new false)
        (branch (ltb_ℤ (get_sector_length old) (get_sector_length new))
          (check_repair_filesystem w fs_old
            &&& resize_move_partition w old new true
            &&& maximize_encryption w new
            &&& maximize_filesystem w fs_new)
          (pure true))

  unfoldable pub resize_encryption : Partition → Partition → Run Bool
  unfolding get_filesystem_partition
  resize_encryption old new = branch (not (is_luks old.fstype)) (reject not_luks) (
      branch
        (not old.busy
          && ltb_ℤ (get_sector_length new.attributes) (get_sector_length old.attributes))
        (reject closed_luks_shrinks)
        (branch (not old.busy)
          (resize_move_partition w old.attributes new.attributes true
            &&& maximize_encryption w new.attributes)
          (branch (is_swap (get_filesystem_partition new).fstype)
            (resize_encrypted_swap old.attributes new.attributes (get_filesystem_partition new))
            (resize_encrypted_filesystem old.attributes new.attributes
              (get_filesystem_partition old) (get_filesystem_partition new)))))

  unfoldable pub resize : Partition → Partition → Run Bool
  resize old new = branch (not (eq_ℤ old.sector_start new.sector_start)) (reject start_changes) (
      branch (is_luks new.fstype) (resize_encryption old new)
        (resize_plain old.attributes new.attributes))
