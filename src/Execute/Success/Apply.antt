-- ===== src/Execute/Success/Apply.antt =====
-- A whole operation reports no success after a failure.
use gparted_android.Prelude.{ℕ, ◌≡◌, refl, ap, Bool, true, false, not, [], Option, none, some}
use gparted_android.Prelude.Int.{ℤ, pos, ltb_ℤ}
use gparted_android.Prelude.Text.{text_eq}
use gparted_android.Partition.{
  Attributes, Partition, type_is, type_extended, type_unpartitioned, type_unallocated, status_is,
  stat_copy,
}
use gparted_android.Partition.Basic.{get_byte_length}
use gparted_android.Partition.Luks.{get_filesystem_partition}
use gparted_android.Operation.{
  Operation, deletion, changing, copying, Change, check, create, resize_move, format,
  label_filesystem, change_uuid, name_partition,
}
use gparted_android.Execute.{
  World, Run, pure, ◌>>=◌, ◌&&&◌, perform, branch, open_luks, destination_smaller, create_part,
  update_dmraid, name_part, set_type, erase_signatures, open_device, find_partition, delete_part,
}
use gparted_android.Execute.Success.{
  Clean, Honest, is_true, is_done, is_some, pure-Honest, pure-Fails, branch-Honest, reject-Honest,
  some-Honest, else-Honest, and-Honest, perform-Honest,
}
use gparted_android.Execute.Success.Filesystem.{
  create_filesystem-Honest, remove_filesystem-Honest, label_filesystem-Honest,
  change_filesystem_uuid-Honest, copy_filesystem-Honest, maximize_encryption-Honest,
  maximize_filesystem-Honest, recreate_linux_swap_filesystem-Honest, check_repair_filesystem-Honest,
}
use gparted_android.Execute.Success.Resize.{boot_sector-Honest, returned-Honest, resize_move-Honest}
use gparted_android.Execute.Filesystem.{is_luks, is_swap, is_open_luks, remove_filesystem}
use gparted_android.Execute.Create
use gparted_android.Execute.Create.{
  create_partition, added, found, is_calibrated, fill_created, name_and_fill, is_unformatted,
  is_cleared, is_xfs, calibrate_partition,
}
use gparted_android.Execute.Copy.{copy_to, copy_to_created, copy, check_repair_maximize}
use gparted_android.Execute.ResizeMove.{returned}
use gparted_android.Execute.Apply.{
  with_path_of, with_calibrated, calibrated, apply_change, apply_operation_to_disk,
}

module _ (w : World) where
  create_partition-Honest :
      (p : Attributes) (min_size : ℤ) → Honest is_some (create_partition w p min_size)
  unfolding create_partition
  create_partition-Honest p min_size =
      else-Honest (perform-Honest w (create_part _ _))
        (record { holds = λ h c e. (numbered (added w _ h).0).holds h c e }) (pure-Fails none refl)
    where
      numbered :
          (q : Attributes)
          → Honest is_some (
              branch
                (ltb_ℤ (pos 0) q.partition_number)
                (perform w (update_dmraid q) >>= λ entered.
                  branch entered (pure (some q)) (pure none))
                (pure none))
      numbered q =
          branch-Honest (ltb_ℤ (pos 0) q.partition_number)
            (else-Honest (perform-Honest w (update_dmraid q)) (pure-Honest (some q))
              (pure-Fails none refl))
            (pure-Honest none)

  fill_created-Honest : (p : Attributes) → Honest is_true (fill_created w p)
  fill_created-Honest p =
      branch-Honest (type_is p.type type_extended) (perform-Honest w (set_type p)) (
        branch-Honest (is_unformatted p.fstype) (pure-Honest true) (
          branch-Honest (is_cleared p.fstype) (perform-Honest w (erase_signatures p)) (
            and-Honest
              (and-Honest (perform-Honest w (erase_signatures p)) (perform-Honest w (set_type p)))
              (create_filesystem-Honest w p))))

  create-Honest : (p : Attributes) → Honest is_true (gparted_android.Execute.Create.create w p)
  unfolding gparted_android.Execute.Create.create
  create-Honest p =
      some-Honest (name_and_fill w) (create_partition-Honest p _)
        (λ q.
          branch-Honest (not (text_eq q.name []))
            (and-Honest (perform-Honest w (name_part q)) (fill_created-Honest q))
            (fill_created-Honest q))
        (pure-Fails false refl)

  format-Honest : (p : Attributes) → Honest is_true (gparted_android.Execute.Create.format w p)
  unfolding gparted_android.Execute.Create.format
  format-Honest p = branch-Honest (is_open_luks p) (reject-Honest open_luks) (
      branch-Honest (is_cleared p.fstype)
        (and-Honest (perform-Honest w (erase_signatures p)) (perform-Honest w (set_type p)))
        (and-Honest
          (and-Honest (perform-Honest w (erase_signatures p)) (perform-Honest w (set_type p)))
          (create_filesystem-Honest w p)))

  calibrate_partition-Honest : (p : Attributes) → Honest is_some (calibrate_partition w p)
  unfolding calibrate_partition
  calibrate_partition-Honest p =
      branch-Honest (is_calibrated p)
        (else-Honest (perform-Honest w (open_device p))
          (branch-Honest (type_is p.type type_unpartitioned) (pure-Honest (some p)) (
            else-Honest (perform-Honest w (find_partition p)) (record { holds = λ h c e. c })
              (pure-Fails none refl)))
          (pure-Fails none refl))
        (pure-Honest (some p))

  copy_to-Honest : (fs_src fs_dst dst : Attributes) → Honest is_true (copy_to w fs_src fs_dst dst)
  copy_to-Honest fs_src fs_dst dst =
      and-Honest
        (and-Honest
          (and-Honest
            (and-Honest (perform-Honest w (erase_signatures fs_dst))
              (perform-Honest w (set_type fs_dst)))
            (copy_filesystem-Honest w fs_src fs_dst))
          (boot_sector-Honest w dst))
        (branch-Honest (is_swap fs_dst.fstype) (recreate_linux_swap_filesystem-Honest w fs_dst) (
          and-Honest (check_repair_filesystem-Honest w fs_dst) (
            branch-Honest (ltb_ℤ (get_byte_length fs_src) (get_byte_length fs_dst))
              (maximize_filesystem-Honest w fs_dst) (pure-Honest true))))

  copy-Honest : (src dst : Partition) → Honest is_true (copy w src dst)
  unfolding copy
  copy-Honest src dst = branch-Honest _ (reject-Honest destination_smaller) (
      branch-Honest (status_is dst.status stat_copy)
        (some-Honest (copy_to_created w src dst) (create_partition-Honest dst.attributes _)
          (λ a. copy_to-Honest _ _ a) (pure-Fails false refl))
        (copy_to-Honest _ _ dst.attributes))

  check_repair_maximize-Honest : (p : Partition) → Honest is_true (check_repair_maximize w p)
  unfolding check_repair_maximize
  check_repair_maximize-Honest p =
      branch-Honest (is_luks p.fstype)
        (and-Honest (maximize_encryption-Honest w _)
          (branch-Honest p.busy (maximize_filesystem-Honest w _) (pure-Honest true)))
        (maximize_filesystem-Honest w p.attributes)

  calibrated-Honest :
      (p : Partition) (f : Partition → Run (Option Bool))
      → ((q : Partition) → Honest is_done (f q))
      → Honest is_done (calibrated w p f)
  calibrated-Honest p f t =
      some-Honest (with_calibrated w f p) (calibrate_partition-Honest p.attributes) (λ a. t _)
        (pure-Fails (some false) refl)

  apply_change-Honest :
      (fuel : ℕ) (c : Change) (original new : Partition)
      → Honest is_done (apply_change w fuel c original new)
  unfolding apply_change
  apply_change-Honest fuel check original new = calibrated-Honest original _ (λ p.
      returned-Honest w (
        and-Honest (check_repair_filesystem-Honest w (get_filesystem_partition p))
          (check_repair_maximize-Honest p)))
  apply_change-Honest fuel create original new = returned-Honest w (create-Honest new.attributes)
  apply_change-Honest fuel resize_move original new =
      calibrated-Honest original _ (λ p. resize_move-Honest w fuel p (with_path_of p new))
  apply_change-Honest fuel format original new = calibrated-Honest new _ (λ p. returned-Honest w (
      and-Honest (remove_filesystem-Honest w (get_filesystem_partition (with_path_of p original)))
        (format-Honest (get_filesystem_partition p))))
  apply_change-Honest fuel label_filesystem original new =
      calibrated-Honest new _
        (λ p. returned-Honest w (label_filesystem-Honest w (get_filesystem_partition p)))
  apply_change-Honest fuel change_uuid original new =
      calibrated-Honest new _
        (λ p. returned-Honest w (change_filesystem_uuid-Honest w (get_filesystem_partition p)))
  apply_change-Honest fuel name_partition original new =
      calibrated-Honest new _ (λ p. returned-Honest w (perform-Honest w (name_part p.attributes)))

  pub apply_operation_to_disk-Honest :
      (fuel : ℕ) (operation : Operation) → Honest is_done (apply_operation_to_disk w fuel operation)
  unfolding apply_operation_to_disk
  apply_operation_to_disk-Honest fuel (deletion d original) = calibrated-Honest original _ (λ p.
      returned-Honest w (
        and-Honest (remove_filesystem-Honest w p.attributes)
          (perform-Honest w (delete_part p.attributes))))
  apply_operation_to_disk-Honest fuel (changing c d original new) =
      apply_change-Honest fuel c original new
  apply_operation_to_disk-Honest fuel (copying d original new copied) =
      calibrated-Honest copied _ (λ s.
        branch-Honest (type_is original.type type_unallocated) (pasted s new)
          (calibrated-Honest new _ (λ n. pasted s n)))
    where
      pasted :
          (s n : Partition)
          → Honest is_done
              (returned (remove_filesystem w (get_filesystem_partition original) &&& copy w s n))
      pasted s n = returned-Honest w (and-Honest (remove_filesystem-Honest w _) (copy-Honest s n))

-- If applying an operation ends with success, every step that was asked of libparted, of a driver or of
-- the copying has succeeded, and no programming error was reported.
pub apply_operation_to_disk-Clean :
    (w : World) (fuel : ℕ) (operation : Operation)
    → (apply_operation_to_disk w fuel operation []).0 ≡ some true
    → Clean (apply_operation_to_disk w fuel operation []).1
apply_operation_to_disk-Clean w fuel operation e =
    (apply_operation_to_disk-Honest w fuel operation).holds [] tt (ap is_done e)
