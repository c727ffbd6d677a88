-- ===== src/Execute/Move.antt =====
-- Moving a partition with its file system (src/GParted_Core.cc).
use gparted_android.Prelude.{◌∷◌, Bool, true, false, ◌&&◌, not, if◌then◌else◌}
use gparted_android.Prelude.Int.{ℤ, pos, ◌+ℤ◌, ◌-ℤ◌, ◌/ℤ◌, ltb_ℤ, leb_ℤ, eq_ℤ}
use gparted_android.Partition.{Attributes, align_strict}
use gparted_android.Partition.Basic.{get_sector_length, test_overlap}
use gparted_android.Partition.Usage.{min_ℤ}
use gparted_android.Execute.{
  World, Support, gparted, external, Run, pure, ◌>>=◌, ◌&&&◌, branch, reject, perform,
  update_bootsector, copied_only, copy_blocks, external_move, size_changes,
}
use gparted_android.Execute.Filesystem.{
  is_swap, with_object, recreate_linux_swap_filesystem, check_repair_filesystem, is_ntfs,
}
use gparted_android.Execute.Partition.{max_ℤ, strictly, resize_move_partition}

-- What a copy of `total_done` bytes has overwritten of its source: the copying goes away from the old
-- place, so that it ends where the two places overlap.
unfoldable pub overwritten : Attributes → Attributes → ℤ → Attributes
overwritten src dst total_done =
    if ltb_ℤ src.sector_start dst.sector_start
    then record src {
      sector_start =
          src.sector_end
          -ℤ (total_done /ℤ src.sector_size -ℤ pos 1)
          +ℤ (dst.sector_start -ℤ src.sector_start);
    }
    else record src {
      sector_end =
          src.sector_start
          +ℤ (total_done /ℤ src.sector_size -ℤ pos 1)
          -ℤ (src.sector_start -ℤ dst.sector_start);
    }

-- Where the overwritten sectors were copied to.
unfoldable pub copied : Attributes → Attributes → ℤ → Attributes
copied src dst total_done =
    if ltb_ℤ src.sector_start dst.sector_start
    then record dst {
      sector_start =
          dst.sector_end
          -ℤ (total_done /ℤ dst.sector_size -ℤ pos 1)
          +ℤ (dst.sector_start -ℤ src.sector_start);
    }
    else record dst {
      sector_end =
          dst.sector_start
          +ℤ (total_done /ℤ dst.sector_size -ℤ pos 1)
          -ℤ (src.sector_start -ℤ dst.sector_start);
    }

-- An overlap with nothing overwritten yet needs no copying back.
abbrev pub is_rollback_needed : Attributes → Bool
is_rollback_needed temp_src = leb_ℤ temp_src.sector_start temp_src.sector_end

abbrev pub all_space : Attributes → Attributes → Attributes
all_space old new = record old {
  alignment = align_strict;
  sector_start = min_ℤ new.sector_start old.sector_start;
  sector_end = max_ℤ old.sector_end new.sector_end;
}

-- The history keeps how far a copy came that failed.
abbrev pub note : Bool → Attributes → Attributes → ℤ → Run Bool
note success src dst total_done =
    branch success (pure success) (λ h. (success, copied_only src dst total_done ∷ h))

module _ (w : World) where
  unfoldable pub rollback_move_filesystem : Attributes → Attributes → ℤ → Run Bool
  rollback_move_filesystem src dst total_done =
      branch (ltb_ℤ (pos 0) total_done && is_rollback_needed (overwritten src dst total_done))
        (perform w (copy_blocks (copied src dst total_done) (overwritten src dst total_done) false))
        (pure true)

  abbrev pub get_bytes_done : Run ℤ
  get_bytes_done h = (w.bytes_done h, h)

  abbrev pub move_blocks : Attributes → Attributes → Run Bool
  move_blocks old new = perform w (copy_blocks old new true) >>= λ success.
      get_bytes_done >>= λ total_done. note success old new total_done >>= λ noted.
      branch (not success && test_overlap new old)
        (rollback_move_filesystem old new total_done >>= λ copied_back. pure success) (pure success)

  abbrev pub move_by : Support → Attributes → Attributes → Run Bool
  move_by gparted old new = move_blocks old new
  move_by external old new = with_object w new.fstype (perform w (external_move old new))
  move_by _ old new = pure false

  unfoldable pub move_filesystem : Attributes → Attributes → Run Bool
  unfolding rollback_move_filesystem
  move_filesystem old new =
      branch (eq_ℤ new.sector_start old.sector_start) (pure true)
        (move_by (w.get_fs old.fstype).move old new)

  abbrev pub boot_sector : Attributes → Run Bool
  boot_sector p = branch (is_ntfs p.fstype) (perform w (update_bootsector p)) (pure true)

  -- The partition takes back its old boundaries after its file system could not be moved.
  unfoldable pub restore : Attributes → Attributes → Run Bool
  restore old new = resize_move_partition w (all_space old new) (strictly old) false >>= λ restored.
      branch restored (check_repair_filesystem w old >>= λ checked. pure false) (pure false)

  unfoldable pub move : Attributes → Attributes → Run Bool
  unfolding move_filesystem restore
  move old new =
      branch (not (eq_ℤ (get_sector_length old) (get_sector_length new))) (reject size_changes) (
        check_repair_filesystem w old
        &&& resize_move_partition w old (all_space old new) true
        &&& (move_filesystem old new >>= λ moved. branch moved (pure true) (restore old new))
        &&& resize_move_partition w (all_space old new) new false
        &&& boot_sector new
        &&& branch (is_swap new.fstype) (recreate_linux_swap_filesystem w new) (pure true))
