-- ===== src/Execute/Success/Filesystem.antt =====
-- The steps on a file system and on the boundaries report no success after a failure.
use gparted_android.Prelude.{refl, Bool, true, false, ◌&&◌, ◌||◌, not}
use gparted_android.Prelude.Int.{leb_ℤ}
use gparted_android.Partition.{Attributes, FsType, type_is, type_unpartitioned}
use gparted_android.Partition.Basic.{get_sector_length}
use gparted_android.Execute.{
  World, Support, unsupported, gparted, libparted, external, Run, pure, ◌>>=◌, branch, open_luks,
  not_open_luks, not_luks, not_smaller, not_swap, libparted_resize, resize_external,
  erase_signatures, check_repair, create_external, remove_external, write_label_external,
  write_uuid_external, copy_blocks, external_copy, set_geometry, update_dmraid,
}
use gparted_android.Execute.Success.{
  Honest, is_true, pure-Honest, pure-Fails, bind-Fails, branch-Fails, branch-Honest, reject-Honest,
  then-Honest, and-Honest, perform-Honest,
}
use gparted_android.Execute.Filesystem.{
  is_luks, is_swap, is_none, is_open_luks, with_object, externally, resize_by,
  resize_filesystem_implement, shrink_encryption, maximize_encryption, shrink_filesystem,
  maximize_filesystem, recreate_linux_swap_filesystem, check_by, check_repair_filesystem,
  create_filesystem, remove_by, remove_filesystem, label_filesystem, change_filesystem_uuid,
  copy_by, copy_filesystem,
}
use gparted_android.Execute.Partition.{
  action_of, is_no_action, intersection, strictly, put_geometry, resize_move_partition,
}

module _ (w : World) where
  pub with_object-Honest :
      (t : FsType) {m : Run Bool} → Honest is_true m → Honest is_true (with_object w t m)
  with_object-Honest t h = branch-Honest (w.has_object t) h (pure-Honest false)

  externally-Honest :
      (s : Support) (t : FsType) {m : Run Bool}
      → Honest is_true m
      → Honest is_true (externally w s t m)
  externally-Honest unsupported t h = pure-Honest false
  externally-Honest gparted t h = pure-Honest false
  externally-Honest libparted t h = pure-Honest false
  externally-Honest external t h = with_object-Honest t h

  resize_by-Honest :
      (s : Support) (old new : Attributes) (fill : Bool)
      → Honest is_true (resize_by w s old new fill)
  resize_by-Honest unsupported old new fill = pure-Honest false
  resize_by-Honest gparted old new fill = pure-Honest false
  resize_by-Honest libparted old new fill = perform-Honest w (libparted_resize old new)
  resize_by-Honest external old new fill =
      with_object-Honest new.fstype (perform-Honest w (resize_external new fill))

  resize_filesystem_implement-Honest :
      (old new : Attributes) → Honest is_true (resize_filesystem_implement w old new)
  unfolding resize_filesystem_implement
  resize_filesystem_implement-Honest old new = resize_by-Honest _ old new _

  pub shrink_encryption-Honest :
      (old new : Attributes) → Honest is_true (shrink_encryption w old new)
  unfolding shrink_encryption
  shrink_encryption-Honest old new =
      branch-Honest (not (is_open_luks old)) (reject-Honest not_open_luks)
        (resize_filesystem_implement-Honest old new)

  pub maximize_encryption-Honest : (p : Attributes) → Honest is_true (maximize_encryption w p)
  unfolding maximize_encryption
  maximize_encryption-Honest p = branch-Honest (not (is_luks p.fstype)) (reject-Honest not_luks) (
      branch-Honest (is_none (w.get_fs p.fstype).grow) (pure-Honest true)
        (resize_filesystem_implement-Honest p p))

  pub shrink_filesystem-Honest :
      (old new : Attributes) → Honest is_true (shrink_filesystem w old new)
  unfolding shrink_filesystem
  shrink_filesystem-Honest old new = branch-Honest (is_open_luks old) (reject-Honest open_luks) (
      branch-Honest (leb_ℤ (get_sector_length old) (get_sector_length new))
        (reject-Honest not_smaller) (resize_filesystem_implement-Honest old new))

  pub maximize_filesystem-Honest : (p : Attributes) → Honest is_true (maximize_filesystem w p)
  unfolding maximize_filesystem
  maximize_filesystem-Honest p = branch-Honest (is_open_luks p) (reject-Honest open_luks) (
      branch-Honest (is_none (w.get_fs p.fstype).grow) (pure-Honest true) (
        branch-Honest (w.resize_disallowed p) (pure-Honest true)
          (resize_filesystem_implement-Honest p p)))

  pub recreate_linux_swap_filesystem-Honest :
      (p : Attributes) → Honest is_true (recreate_linux_swap_filesystem w p)
  unfolding recreate_linux_swap_filesystem
  recreate_linux_swap_filesystem-Honest p =
      branch-Honest (not (is_swap p.fstype)) (reject-Honest not_swap) (
        and-Honest (perform-Honest w (erase_signatures p)) (resize_filesystem_implement-Honest p p))

  check_by-Honest : (s : Support) (p : Attributes) → Honest is_true (check_by w s p)
  check_by-Honest unsupported p = pure-Honest true
  check_by-Honest gparted p = pure-Honest false
  check_by-Honest libparted p = pure-Honest false
  check_by-Honest external p = with_object-Honest p.fstype (perform-Honest w (check_repair p))

  pub check_repair_filesystem-Honest :
      (p : Attributes) → Honest is_true (check_repair_filesystem w p)
  unfolding check_repair_filesystem
  check_repair_filesystem-Honest p =
      branch-Honest (is_open_luks p) (reject-Honest open_luks)
        (branch-Honest p.busy (pure-Honest true) (check_by-Honest (w.get_fs p.fstype).check p))

  pub create_filesystem-Honest : (p : Attributes) → Honest is_true (create_filesystem w p)
  unfolding create_filesystem
  create_filesystem-Honest p =
      branch-Honest (is_open_luks p) (reject-Honest open_luks) (
        externally-Honest (w.get_fs p.fstype).create p.fstype
          (perform-Honest w (create_external p)))

  remove_by-Honest : (s : Support) (p : Attributes) → Honest is_true (remove_by w s p)
  remove_by-Honest unsupported p = pure-Honest true
  remove_by-Honest gparted p = pure-Honest true
  remove_by-Honest libparted p = pure-Honest true
  remove_by-Honest external p = with_object-Honest p.fstype (perform-Honest w (remove_external p))

  pub remove_filesystem-Honest : (p : Attributes) → Honest is_true (remove_filesystem w p)
  unfolding remove_filesystem
  remove_filesystem-Honest p =
      branch-Honest (is_open_luks p) (reject-Honest open_luks)
        (remove_by-Honest (w.get_fs p.fstype).remove p)

  pub label_filesystem-Honest : (p : Attributes) → Honest is_true (label_filesystem w p)
  unfolding label_filesystem
  label_filesystem-Honest p =
      branch-Honest (is_open_luks p) (reject-Honest open_luks)
        (externally-Honest _ p.fstype (perform-Honest w (write_label_external p)))

  pub change_filesystem_uuid-Honest : (p : Attributes) → Honest is_true (change_filesystem_uuid w p)
  unfolding change_filesystem_uuid
  change_filesystem_uuid-Honest p = branch-Honest (is_open_luks p) (reject-Honest open_luks) (
      externally-Honest (w.get_fs p.fstype).write_uuid p.fstype
        (perform-Honest w (write_uuid_external p)))

  copy_by-Honest : (s : Support) (src dst : Attributes) → Honest is_true (copy_by w s src dst)
  copy_by-Honest unsupported src dst = pure-Honest false
  copy_by-Honest libparted src dst = pure-Honest false
  copy_by-Honest gparted src dst = perform-Honest w (copy_blocks src dst true)
  copy_by-Honest external src dst =
      with_object-Honest dst.fstype (perform-Honest w (external_copy src dst))

  pub copy_filesystem-Honest : (src dst : Attributes) → Honest is_true (copy_filesystem w src dst)
  unfolding copy_filesystem
  copy_filesystem-Honest src dst = branch-Honest (is_open_luks src) (reject-Honest open_luks) (
      branch-Honest (is_open_luks dst) (reject-Honest open_luks)
        (copy_by-Honest (w.get_fs dst.fstype).copy src dst))

  put_geometry-Honest : (old new : Attributes) → Honest is_true (put_geometry w old new)
  put_geometry-Honest old new =
      and-Honest (perform-Honest w (set_geometry old new)) (perform-Honest w (update_dmraid new))

  -- A change that is rolled back is not a success.
  pub resize_move_partition-Honest :
      (old new : Attributes) (rollback : Bool)
      → Honest is_true (resize_move_partition w old new rollback)
  unfolding resize_move_partition
  resize_move_partition-Honest old new rollback =
      branch-Honest (type_is new.type type_unpartitioned || is_no_action (action_of old new))
        (pure-Honest true)
        (then-Honest
          (λ success.
            branch (not success && rollback)
              (put_geometry w (intersection old new) (strictly old) >>= λ rollback_success.
                pure success)
              (pure success))
          (put_geometry-Honest old new) (pure-Honest true)
          (branch-Fails rollback
            (bind-Fails (put_geometry w (intersection old new) (strictly old))
              (λ b. pure-Fails false refl))
            (pure-Fails false refl)))
