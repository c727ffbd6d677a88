-- ===== src/Execute/Apply.antt =====
-- `apply_operation_to_disk` (src/GParted_Core.cc).
use gparted_android.Prelude.{ℕ, Bool, false, Option, none, some}
use gparted_android.Partition.{Attributes, Partition, type_is, type_unallocated, with_attributes}
use gparted_android.Partition.Luks.{get_filesystem_partition}
use gparted_android.Operation.{
  Operation, deletion, changing, copying, Change, check, create, resize_move, format,
  label_filesystem, change_uuid, name_partition,
}
use gparted_android.Execute.{
  World, Run, pure, ◌>>=◌, ◌&&&◌, branch, perform, delete_part, name_part,
}
use gparted_android.Execute.Filesystem.{
  remove_filesystem, check_repair_filesystem, change_filesystem_uuid,
}
use gparted_android.Execute.Filesystem
use gparted_android.Execute.Create.{calibrate_partition}
use gparted_android.Execute.Copy.{check_repair_maximize, copy}
use gparted_android.Execute.ResizeMove.{returned}

abbrev pub with_path_of : Partition → Partition → Partition
with_path_of p q = with_attributes (record (q.attributes) { path = p.path }) q

module _ (w : World) where
  abbrev pub with_calibrated :
      (Partition → Run (Option Bool)) → Partition → Option Attributes → Run (Option Bool)
  with_calibrated f p none = pure (some false)
  with_calibrated f p (some a) = f (with_attributes a p)

  -- The rest of an operation needs the partition to be found.
  abbrev pub calibrated : Partition → (Partition → Run (Option Bool)) → Run (Option Bool)
  calibrated p f = calibrate_partition w p.attributes >>= with_calibrated f p

  -- The partition that is pasted, and the destination if it exists already.
  abbrev pub calibrated_copy :
      Partition
      → Partition
      → Partition
      → (Partition → Partition → Run (Option Bool))
      → Run (Option Bool)
  calibrated_copy source original new f =
      calibrated source (λ s.
        branch (type_is original.type type_unallocated) (f s new) (calibrated new (λ n. f s n)))

  unfoldable pub apply_change : ℕ → Change → Partition → Partition → Run (Option Bool)
  apply_change fuel check original new = calibrated original (λ p.
      returned
        (check_repair_filesystem w (get_filesystem_partition p) &&& check_repair_maximize w p))
  apply_change fuel create original new =
      returned (gparted_android.Execute.Create.create w new.attributes)
  apply_change fuel resize_move original new =
      calibrated original
        (λ p. gparted_android.Execute.ResizeMove.resize_move w fuel p (with_path_of p new))
  apply_change fuel format original new = calibrated new (λ p. returned (
      remove_filesystem w (get_filesystem_partition (with_path_of p original))
      &&& gparted_android.Execute.Create.format w (get_filesystem_partition p)))
  apply_change fuel label_filesystem original new = calibrated new (λ p.
      returned (gparted_android.Execute.Filesystem.label_filesystem w (get_filesystem_partition p)))
  apply_change fuel change_uuid original new =
      calibrated new (λ p. returned (change_filesystem_uuid w (get_filesystem_partition p)))
  apply_change fuel name_partition original new =
      calibrated new (λ p. returned (perform w (name_part p.attributes)))

  -- `none` if the fuel of `resize_move` is used up.
  unfoldable pub apply_operation_to_disk : ℕ → Operation → Run (Option Bool)
  unfolding apply_change
  apply_operation_to_disk fuel (deletion d original) =
      calibrated original
        (λ p. returned (remove_filesystem w p.attributes &&& perform w (delete_part p.attributes)))
  apply_operation_to_disk fuel (changing c d original new) = apply_change fuel c original new
  apply_operation_to_disk fuel (copying d original new copied) =
      calibrated_copy copied original new
        (λ s n. returned (remove_filesystem w (get_filesystem_partition original) &&& copy w s n))
