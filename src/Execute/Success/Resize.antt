-- ===== src/Execute/Success/Resize.antt =====
-- Resizing and moving report no success after a failure.
use gparted_android.Prelude.{
  ℕ, zero, suc, ◌≡◌, refl, Bool, true, false, ◌&&◌, not, Option, none, some,
}
use gparted_android.Prelude.Int.{ltb_ℤ, eq_ℤ}
use gparted_android.Partition.{Attributes, Partition, type_is, type_extended}
use gparted_android.Partition.Basic.{get_sector_length, test_overlap}
use gparted_android.Partition.Luks.{get_filesystem_partition}
use gparted_android.Execute.{
  World, Support, unsupported, gparted, libparted, external, Run, pure, ◌>>=◌, branch, open_luks,
  not_luks, closed_luks_shrinks, start_changes, size_changes, copy_blocks, external_move,
  update_bootsector, exact_geometry, update_dmraid,
}
use gparted_android.Execute.Success.{
  Honest, Fails, is_true, is_done, is_some, pure-Honest, pure-Fails, bind-Fails, read-Honest,
  branch-Fails, branch-Honest, reject-Honest, then-Honest, some-Honest, else-Honest, bind-Honest,
  and-Honest, perform-Honest,
}
use gparted_android.Execute.Success.Filesystem.{
  with_object-Honest, shrink_encryption-Honest, maximize_encryption-Honest,
  shrink_filesystem-Honest, maximize_filesystem-Honest, recreate_linux_swap_filesystem-Honest,
  check_repair_filesystem-Honest, resize_move_partition-Honest,
}
use gparted_android.Execute.Filesystem.{
  is_luks, is_swap, is_ntfs, is_open_luks, check_repair_filesystem,
}
use gparted_android.Execute.Partition.{strictly, resize_move_partition}
use gparted_android.Execute.Resize.{
  resize_plain, resize_encrypted_swap, resize_encrypted_filesystem, resize_encryption, resize,
}
use gparted_android.Execute.Move.{
  all_space, move_blocks, move_by, move_filesystem, restore, boot_sector, move, get_bytes_done,
  note, rollback_move_filesystem,
}
use gparted_android.Execute.ResizeMove.{
  calculate_exact_geom, exactly, keeps_geometry, halfway, strictly_aligned, returned, and_then,
  resize_move_to, resize_move,
}

module _ (w : World) where
  resize_plain-Honest : (old new : Attributes) → Honest is_true (resize_plain w old new)
  unfolding resize_plain
  resize_plain-Honest old new = branch-Honest (is_open_luks old) (reject-Honest open_luks) (
      branch-Honest (is_swap new.fstype)
        (and-Honest (resize_move_partition-Honest w old new true)
          (recreate_linux_swap_filesystem-Honest w new))
        (branch-Honest (ltb_ℤ (get_sector_length new) (get_sector_length old))
          (and-Honest
            (and-Honest (check_repair_filesystem-Honest w new) (shrink_filesystem-Honest w old new))
            (resize_move_partition-Honest w old new false))
          (branch-Honest (ltb_ℤ (get_sector_length old) (get_sector_length new))
            (and-Honest
              (and-Honest (check_repair_filesystem-Honest w new)
                (resize_move_partition-Honest w old new true))
              (maximize_filesystem-Honest w new))
            (pure-Honest true))))

  resize_encrypted_swap-Honest :
      (old new fs_new : Attributes) → Honest is_true (resize_encrypted_swap w old new fs_new)
  resize_encrypted_swap-Honest old new fs_new =
      branch-Honest (ltb_ℤ (get_sector_length new) (get_sector_length old))
        (and-Honest
          (and-Honest (shrink_encryption-Honest w old new)
            (resize_move_partition-Honest w old new false))
          (recreate_linux_swap_filesystem-Honest w fs_new))
        (branch-Honest (ltb_ℤ (get_sector_length old) (get_sector_length new))
          (and-Honest
            (and-Honest (resize_move_partition-Honest w old new true)
              (maximize_encryption-Honest w new))
            (recreate_linux_swap_filesystem-Honest w fs_new))
          (pure-Honest true))

  resize_encrypted_filesystem-Honest :
      (old new fs_old fs_new : Attributes)
      → Honest is_true (resize_encrypted_filesystem w old new fs_old fs_new)
  resize_encrypted_filesystem-Honest old new fs_old fs_new =
      branch-Honest (ltb_ℤ (get_sector_length new) (get_sector_length old))
        (and-Honest
          (and-Honest
            (and-Honest (check_repair_filesystem-Honest w fs_old)
              (shrink_filesystem-Honest w fs_old fs_new))
            (shrink_encryption-Honest w old new))
          (resize_move_partition-Honest w old new false))
        (branch-Honest (ltb_ℤ (get_sector_length old) (get_sector_length new))
          (and-Honest
            (and-Honest
              (and-Honest (check_repair_filesystem-Honest w fs_old)
                (resize_move_partition-Honest w old new true))
              (maximize_encryption-Honest w new))
            (maximize_filesystem-Honest w fs_new))
          (pure-Honest true))

  resize_encryption-Honest : (old new : Partition) → Honest is_true (resize_encryption w old new)
  unfolding resize_encryption get_filesystem_partition
  resize_encryption-Honest old new =
      branch-Honest (not (is_luks old.fstype)) (reject-Honest not_luks) (
        branch-Honest
          (not old.busy
            && ltb_ℤ (get_sector_length new.attributes) (get_sector_length old.attributes))
          (reject-Honest closed_luks_shrinks)
          (branch-Honest (not old.busy)
            (and-Honest (resize_move_partition-Honest w old.attributes new.attributes true)
              (maximize_encryption-Honest w new.attributes))
            (branch-Honest (is_swap (get_filesystem_partition new).fstype)
              (resize_encrypted_swap-Honest old.attributes new.attributes
                (get_filesystem_partition new))
              (resize_encrypted_filesystem-Honest old.attributes new.attributes
                (get_filesystem_partition old) (get_filesystem_partition new)))))

  resize-Honest : (old new : Partition) → Honest is_true (resize w old new)
  unfolding resize
  resize-Honest old new =
      branch-Honest (not (eq_ℤ old.sector_start new.sector_start)) (reject-Honest start_changes) (
        branch-Honest (is_luks new.fstype) (resize_encryption-Honest old new)
          (resize_plain-Honest old.attributes new.attributes))

  -- Copying the blocks back does not make a failed move a success.
  move_blocks-Honest : (old new : Attributes) → Honest is_true (move_blocks w old new)
  move_blocks-Honest old new =
      then-Honest
        (λ success. get_bytes_done w >>= λ n. note success old new n >>= λ noted.
          branch (not success && test_overlap new old)
            (rollback_move_filesystem w old new n >>= λ copied_back. pure success) (pure success))
        (perform-Honest w (copy_blocks old new true))
        (read-Honest w.bytes_done (λ n. pure-Honest true))
        (bind-Fails (get_bytes_done w) (λ n. bind-Fails (note false old new n) (λ noted.
          branch-Fails (test_overlap new old)
            (bind-Fails (rollback_move_filesystem w old new n) (λ b. pure-Fails false refl))
            (pure-Fails false refl))))

  move_by-Honest : (s : Support) (old new : Attributes) → Honest is_true (move_by w s old new)
  move_by-Honest unsupported old new = pure-Honest false
  move_by-Honest libparted old new = pure-Honest false
  move_by-Honest gparted old new = move_blocks-Honest old new
  move_by-Honest external old new =
      with_object-Honest w new.fstype (perform-Honest w (external_move old new))

  move_filesystem-Honest : (old new : Attributes) → Honest is_true (move_filesystem w old new)
  unfolding move_filesystem
  move_filesystem-Honest old new =
      branch-Honest (eq_ℤ new.sector_start old.sector_start) (pure-Honest true)
        (move_by-Honest (w.get_fs old.fstype).move old new)

  restore-Fails : (old new : Attributes) → Fails is_true (restore w old new)
  unfolding restore
  restore-Fails old new =
      bind-Fails (resize_move_partition w (all_space old new) (strictly old) false) (λ b.
        branch-Fails b (bind-Fails (check_repair_filesystem w old) (λ c. pure-Fails false refl))
          (pure-Fails false refl))

  pub boot_sector-Honest : (p : Attributes) → Honest is_true (boot_sector w p)
  boot_sector-Honest p =
      branch-Honest (is_ntfs p.fstype) (perform-Honest w (update_bootsector p)) (pure-Honest true)

  move-Honest : (old new : Attributes) → Honest is_true (move w old new)
  unfolding move
  move-Honest old new =
      branch-Honest (not (eq_ℤ (get_sector_length old) (get_sector_length new)))
        (reject-Honest size_changes)
        (and-Honest
          (and-Honest
            (and-Honest
              (and-Honest
                (and-Honest (check_repair_filesystem-Honest w old)
                  (resize_move_partition-Honest w old (all_space old new) true))
                (else-Honest (move_filesystem-Honest old new) (pure-Honest true)
                  (restore-Fails old new)))
              (resize_move_partition-Honest w (all_space old new) new false))
            (boot_sector-Honest new))
          (branch-Honest (is_swap new.fstype) (recreate_linux_swap_filesystem-Honest w new)
            (pure-Honest true)))

  calculate_exact_geom-Honest :
      (old new : Partition) → Honest is_some (calculate_exact_geom w old new)
  unfolding calculate_exact_geom
  calculate_exact_geom-Honest old new =
      else-Honest (perform-Honest w (exact_geometry old.attributes new.attributes))
        (record {
          holds = λ h c e.
              (else-Honest {ok = is_some} (perform-Honest w (update_dmraid _))
                  (pure-Honest (some _)) (pure-Fails none refl)).holds
                h c e;
        })
        (pure-Fails none refl)

  exactly-Honest : (old new : Partition) → Honest is_some (exactly w old new)
  exactly-Honest old new =
      branch-Honest (keeps_geometry new.attributes) (pure-Honest (some new))
        (calculate_exact_geom-Honest old new)

  pub returned-Honest : {m : Run Bool} → Honest is_true m → Honest is_done (returned m)
  returned-Honest t = bind-Honest t (λ a e. pure-Honest (some a)) (λ a e. pure-Fails (some a) e)

  resize_move_to-Honest :
      (again : Partition → Partition → Run (Option Bool)) (old new : Partition)
      → ((p q : Partition) → Honest is_done (again p q))
      → Honest is_done (resize_move_to w again old (some new))
  resize_move_to-Honest again old new again-Honest =
      branch-Honest (type_is old.type type_extended)
        (returned-Honest (resize_move_partition-Honest w old.attributes new.attributes false))
        (branch-Honest (eq_ℤ new.sector_start old.sector_start)
          (returned-Honest (resize-Honest old new))
          (branch-Honest
            (eq_ℤ (get_sector_length new.attributes) (get_sector_length old.attributes))
            (returned-Honest (move-Honest old.attributes new.attributes))
            (bind-Honest (again-Honest old (strictly_aligned (halfway old new))) rest no_rest)))
    where
      rest :
          (r : Option Bool)
          → is_done r ≡ true
          → Honest is_done (and_then r (again (halfway old new) new))
      rest none e = cc e
      rest (some true) e = again-Honest (halfway old new) new
      rest (some false) e = cc e

      no_rest :
          (r : Option Bool)
          → is_done r ≡ false
          → Fails is_done (and_then r (again (halfway old new) new))
      no_rest none e = pure-Fails none refl
      no_rest (some true) e = cc e
      no_rest (some false) e = pure-Fails (some false) refl

  pub resize_move-Honest :
      (fuel : ℕ) (old new : Partition) → Honest is_done (resize_move w fuel old new)
  unfolding resize_move
  resize_move-Honest zero old new = pure-Honest none
  resize_move-Honest (suc fuel) old new =
      some-Honest (resize_move_to w (resize_move w fuel) old) (exactly-Honest old new)
        (λ exact. resize_move_to-Honest (resize_move w fuel) old exact (resize_move-Honest fuel))
        (pure-Fails (some false) refl)
