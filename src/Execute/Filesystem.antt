-- ===== src/Execute/Filesystem.antt =====
-- The steps on a file system (src/GParted_Core.cc): a plain partition, an encryption volume, or the
-- file system in its mapping.
use gparted_android.Prelude.{Bool, true, false, ◌&&◌, not, if◌then◌else◌}
use gparted_android.Prelude.Int.{leb_ℤ}
use gparted_android.Partition.{FsType, Attributes, fs_luks, fs_linux_swap, fs_ntfs}
use gparted_android.Partition.Basic.{get_sector_length}
use gparted_android.Execute.{
  World, Fs, Support, unsupported, gparted, libparted, external, Run, pure, ◌&&&◌, branch, reject,
  perform, libparted_resize, resize_external, check_repair, erase_signatures, create_external,
  remove_external, write_label_external, write_uuid_external, external_copy, copy_blocks, open_luks,
  not_luks, not_open_luks, not_smaller, not_swap,
}

abbrev pub is_luks : FsType → Bool
is_luks fs_luks = true
is_luks _ = false

abbrev pub is_swap : FsType → Bool
is_swap fs_linux_swap = true
is_swap _ = false

abbrev pub is_ntfs : FsType → Bool
is_ntfs fs_ntfs = true
is_ntfs _ = false

abbrev pub is_none : Support → Bool
is_none unsupported = true
is_none _ = false

abbrev pub is_open_luks : Attributes → Bool
is_open_luks p = is_luks p.fstype && p.busy

module _ (w : World) where
  -- `get_filesystem_object(...) && p_filesystem->...`
  abbrev pub with_object : FsType → Run Bool → Run Bool
  with_object t k = branch (w.has_object t) k (pure false)

  -- A step that only the driver of the file system can do.
  abbrev pub externally : Support → FsType → Run Bool → Run Bool
  externally external t k = with_object t k
  externally _ t k = pure false

  -- How a file system is resized: it grows if the new partition is not shorter.
  abbrev pub resize_action : Fs → Bool → Bool → Support
  resize_action f true busy = if busy then f.online_grow else f.grow
  resize_action f false busy = if busy then f.online_shrink else f.shrink

  abbrev pub resize_by : Support → Attributes → Attributes → Bool → Run Bool
  resize_by unsupported old new fill = pure false
  resize_by gparted old new fill = pure false
  resize_by libparted old new fill = perform w (libparted_resize old new)
  resize_by external old new fill = with_object new.fstype (perform w (resize_external new fill))

  unfoldable pub resize_filesystem_implement : Attributes → Attributes → Run Bool
  resize_filesystem_implement old new =
      let fill = leb_ℤ (get_sector_length old) (get_sector_length new) in
      resize_by (resize_action (w.get_fs new.fstype) fill old.busy) old new fill

  unfoldable pub shrink_encryption : Attributes → Attributes → Run Bool
  shrink_encryption old new =
      branch (not (is_open_luks old)) (reject not_open_luks) (resize_filesystem_implement old new)

  unfoldable pub maximize_encryption : Attributes → Run Bool
  maximize_encryption p =
      branch (not (is_luks p.fstype)) (reject not_luks)
        (branch (is_none (w.get_fs p.fstype).grow) (pure true) (resize_filesystem_implement p p))

  unfoldable pub shrink_filesystem : Attributes → Attributes → Run Bool
  shrink_filesystem old new = branch (is_open_luks old) (reject open_luks) (
      branch (leb_ℤ (get_sector_length old) (get_sector_length new)) (reject not_smaller)
        (resize_filesystem_implement old new))

  unfoldable pub maximize_filesystem : Attributes → Run Bool
  maximize_filesystem p = branch (is_open_luks p) (reject open_luks) (
      branch (is_none (w.get_fs p.fstype).grow) (pure true)
        (branch (w.resize_disallowed p) (pure true) (resize_filesystem_implement p p)))

  -- Linux swap is made anew by the resize of its driver.
  unfoldable pub recreate_linux_swap_filesystem : Attributes → Run Bool
  recreate_linux_swap_filesystem p =
      branch (not (is_swap p.fstype)) (reject not_swap)
        (perform w (erase_signatures p) &&& resize_filesystem_implement p p)

  abbrev pub check_by : Support → Attributes → Run Bool
  check_by unsupported p = pure true
  check_by external p = with_object p.fstype (perform w (check_repair p))
  check_by _ p = pure false

  unfoldable pub check_repair_filesystem : Attributes → Run Bool
  check_repair_filesystem p =
      branch (is_open_luks p) (reject open_luks)
        (branch p.busy (pure true) (check_by (w.get_fs p.fstype).check p))

  unfoldable pub create_filesystem : Attributes → Run Bool
  create_filesystem p =
      branch (is_open_luks p) (reject open_luks)
        (externally (w.get_fs p.fstype).create p.fstype (perform w (create_external p)))

  abbrev pub remove_by : Support → Attributes → Run Bool
  remove_by external p = with_object p.fstype (perform w (remove_external p))
  remove_by _ p = pure true

  unfoldable pub remove_filesystem : Attributes → Run Bool
  remove_filesystem p =
      branch (is_open_luks p) (reject open_luks) (remove_by (w.get_fs p.fstype).remove p)

  unfoldable pub label_filesystem : Attributes → Run Bool
  label_filesystem p =
      let f = w.get_fs p.fstype in
      branch (is_open_luks p) (reject open_luks) (
        externally (if p.busy then f.online_write_label else f.write_label) p.fstype
          (perform w (write_label_external p)))

  unfoldable pub change_filesystem_uuid : Attributes → Run Bool
  change_filesystem_uuid p =
      branch (is_open_luks p) (reject open_luks)
        (externally (w.get_fs p.fstype).write_uuid p.fstype (perform w (write_uuid_external p)))

  abbrev pub copy_by : Support → Attributes → Attributes → Run Bool
  copy_by gparted src dst = perform w (copy_blocks src dst true)
  copy_by external src dst = with_object dst.fstype (perform w (external_copy src dst))
  copy_by _ src dst = pure false

  unfoldable pub copy_filesystem : Attributes → Attributes → Run Bool
  copy_filesystem src dst =
      branch (is_open_luks src) (reject open_luks)
        (branch (is_open_luks dst) (reject open_luks) (copy_by (w.get_fs dst.fstype).copy src dst))
