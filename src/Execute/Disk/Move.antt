-- ===== src/Execute/Disk/Move.antt =====
-- Moving a partition keeps its file system inside the boundaries (`move`).
use gparted_android.Prelude.{[], ◌≡◌, refl, sym, ◌∙◌, Bool, true, false, not, arith}
use gparted_android.Prelude.Int.{◌-ℤ◌, int_laws, eq_of_parts, eq_ℤ, parts_of_eq, eq_ℤ→eq}
use gparted_android.Partition.{Attributes, type_is, type_unpartitioned}
use gparted_android.Partition.Basic.{get_sector_length}
use gparted_android.Execute.{
  perform, Step, World, Support, pure, branch, size_changes, update_bootsector, erase_signatures,
  not_swap, unsupported, gparted, libparted, external, Answer, succeeds, fails, fails_after_change,
  external_move, is_ok,
}
use gparted_android.Execute.Disk.{
  moved, effect, effect_of_failure, AlwaysInside, disk_after, Disk, IsInside, Triple, Ends, Any,
  bind-Triple, pure-Triple, and-Triple, weaken-Triple, branch-Triple, reject-Triple, perform-Triple,
  answered,
}
use gparted_android.Execute.Disk.Rules.{
  IsPlaced, length-IsPlaced, Has, quiet-Triple, check_repair_filesystem-Triple,
  resize_filesystem_implement-Triple,
}
use gparted_android.Execute.Disk.Boundaries.{resize_move_partition-Triple}
use gparted_android.Execute.Filesystem.{is_swap, recreate_linux_swap_filesystem}
use gparted_android.Execute.Partition.{resize_move_partition}
use gparted_android.Execute.Partition.{strictly}
use gparted_android.Execute.Filesystem.{is_ntfs}
use gparted_android.Execute.Move.{move, move_filesystem, move_by, restore, all_space, boot_sector}
use gparted_android.Execute.Disk.Resize.{placed_inside, Begins, Placed, loosen, filled}
use gparted_android.Execute.Disk.Copying.{CopiesBack, move_blocks-Triple}
use gparted_android.Execute.Rollback.{IsMove}
use gparted_android.Execute.Disk.Room.{
  Spans, all_space-Spans, all_space-IsPlaced, Spans-Within, move_to_same_start, moves_inside,
}

same_extent :
    (old new : Attributes)
    → IsPlaced old
    → IsPlaced new
    → get_sector_length old ≡ get_sector_length new
    → new.sector_end -ℤ new.sector_start ≡ old.sector_end -ℤ old.sector_start
same_extent old new p q l =
    let a = parts_of_eq (length-IsPlaced old p) in
    let b = parts_of_eq (length-IsPlaced new q) in
    let c = parts_of_eq l in
    eq_of_parts (new.sector_end -ℤ new.sector_start) (old.sector_end -ℤ old.sector_start)
      (omega (int_laws, a, b, c))

module _ (w : World) (laws : CopiesBack w) where
  module _ (old new a : Attributes) (over_old : Spans a old) (spans : Spans a new)
      (p : IsPlaced old) (q : IsPlaced new) (m : IsMove old new) where
    abbrev Moved : Bool → Disk → Type 0
    Moved = Ends (Has a (Begins new)) (Has a (Begins old))

    -- A step that moves the file system; if it fails, it counts as being at its old place.
    moving-Triple :
        (s : Step)
        → ((d : Disk) → effect s d ≡ moved new d)
        → ((d : Disk) → effect_of_failure s d ≡ d)
        → Triple (Has a (Begins old)) (perform w s) Moved
    moving-Triple s e f = perform-Triple w s by_answer
      where
        by_answer :
            (b : Answer) (d : Disk)
            → Has a (Begins old) d
            → IsInside d
            → IsInside (answered s b d) × Moved (is_ok b) (answered s b d)
        by_answer succeeds d x i = rw (e d) (moves_inside old new a d spans x)
        by_answer fails d x i = (i, x)
        by_answer fails_after_change d x i = rw (f d) (i, x)

    move_by-Triple : (s : Support) → Triple (Has a (Begins old)) (move_by w s old new) Moved
    move_by-Triple unsupported = pure-Triple false (λ d i x. x)
    move_by-Triple libparted = pure-Triple false (λ d i x. x)
    move_by-Triple gparted = move_blocks-Triple w laws old new a over_old spans p q m
    move_by-Triple external =
        branch-Triple {Q = Moved} (w.has_object new.fstype)
          (λ h. moving-Triple (external_move old new) (λ d. refl) (λ d. refl))
          (λ h. pure-Triple false (λ d i x. x))

    move_filesystem-Triple :
        (new.sector_start ≡ old.sector_start → old.sector_end ≡ new.sector_end)
        → Triple (Has a (Begins old)) (move_filesystem w old new) Moved
    unfolding move_filesystem
    move_filesystem-Triple same =
        branch-Triple {Q = Moved} (eq_ℤ new.sector_start old.sector_start)
          (λ h. pure-Triple true (λ d i x. stays (eq_ℤ→eq new.sector_start old.sector_start h) d x))
          (λ h. move_by-Triple (w.get_fs old.fstype).move)
      where
        stays :
            new.sector_start ≡ old.sector_start
            → (d : Disk) → Has a (Begins old) d
            → Has a (Begins new) d
        stays k d x =
            let e = parts_of_eq (same k) in
            record {
              start = x.start;
              end = x.end;
              fs = (x.fs.0 ∙ sym k, omega (arith, e, x.fs.1));
              whole = x.whole;
            }

  restore-Triple :
      {Q : Disk → Type 0} (old new : Attributes)
      → type_is old.type type_unpartitioned ≡ false
      → IsPlaced old
      → IsPlaced (all_space old new)
      → Spans (all_space old new) old
      → Triple (Has (all_space old new) (Begins old)) (restore w old new) (Ends Q Any)
  unfolding restore
  restore-Triple {Q = Q} old new u p q s =
      bind-Triple
        (resize_move_partition-Triple w {I = Begins old} (all_space old new) (strictly old) false u
          q (record { start = p.start; order = p.order })
          (λ x e i. let (k, l) = Spans-Within (all_space old new) old x e s i in (l, k)))
        (λ b.
          branch-Triple {Q = Ends Q Any} b
            (λ h.
              bind-Triple
                (weaken-Triple {P' = Ends _ _ b} (λ d x. tt) (λ c d x. x)
                  (check_repair_filesystem-Triple w {P = Any} old))
                (λ c. pure-Triple false (λ d i x. tt)))
            (λ h. pure-Triple false (λ d i x. tt)))

  recreate_swap-Triple :
      (p : Attributes)
      → IsPlaced p
      → Triple
          (Placed p)
          (branch (is_swap p.fstype) (recreate_linux_swap_filesystem w p) (pure true))
          (Ends (Placed p) Any)
  unfolding recreate_linux_swap_filesystem
  recreate_swap-Triple p h =
      branch-Triple {Q = Ends (Placed p) Any} (is_swap p.fstype) (λ k. recreated)
        (λ k. pure-Triple true (λ d i x. x))
    where
      recreated : Triple (Placed p) (recreate_linux_swap_filesystem w p) (Ends (Placed p) Any)
      recreated =
          branch-Triple {Q = Ends (Placed p) Any} (not (is_swap p.fstype))
            (λ k. reject-Triple not_swap (λ d i x. tt))
            (λ k.
              and-Triple (loosen (quiet-Triple w (erase_signatures p) (λ d. refl) (λ d. refl))) (
                resize_filesystem_implement-Triple w p p
                  (λ d x i. let (j, y) = filled p d h x in (j, y, tt, tt))))

  boot_sector-Triple : {P : Disk → Type 0} (p : Attributes) → Triple P (boot_sector w p) (Ends P P)
  boot_sector-Triple {P = P} p =
      branch-Triple {Q = Ends P P} (is_ntfs p.fstype)
        (λ h. quiet-Triple w (update_bootsector p) (λ d. refl) (λ d. refl))
        (λ h. pure-Triple true (λ d i x. x))

  pub move-Triple :
      (old new : Attributes)
      → type_is old.type type_unpartitioned ≡ false
      → type_is new.type type_unpartitioned ≡ false
      → IsPlaced old
      → IsPlaced new
      → new.sector_size ≡ old.sector_size
      → Triple (Placed old) (move w old new) (Ends (Placed new) Any)
  unfolding move
  move-Triple old new u v p q size =
      branch-Triple {Q = Ends (Placed new) Any}
        (not (eq_ℤ (get_sector_length old) (get_sector_length new)))
        (λ h. reject-Triple size_changes (λ d i x. tt))
        (λ h.
          and-Triple
            (and-Triple
              (and-Triple
                (and-Triple (and-Triple (loosen (check_repair_filesystem-Triple w old)) widened)
                  (bind-Triple (moved_there h) restored))
                narrowed)
              (loosen (boot_sector-Triple new)))
            (recreate_swap-Triple new q))
    where
      placed : IsPlaced (all_space old new)
      placed = all_space-IsPlaced old new p q

      over_old : Spans (all_space old new) old
      over_old = (all_space-Spans old new).0

      over_new : Spans (all_space old new) new
      over_new = (all_space-Spans old new).1

      widened :
          Triple
            (Placed old)
            (resize_move_partition w old (all_space old new) true)
            (Ends (Has (all_space old new) (Begins old)) Any)
      widened = loosen (
          resize_move_partition-Triple w {I = Begins old} old (all_space old new) true u p placed
            (λ x e i. Spans-Within (all_space old new) old x e over_old i))

      narrowed :
          Triple
            (Has (all_space old new) (Begins new))
            (resize_move_partition w (all_space old new) new false)
            (Ends (Placed new) Any)
      narrowed = loosen (
          resize_move_partition-Triple w {I = Begins new} (all_space old new) new false v placed q
            (λ x e i. let (k, l) = Spans-Within (all_space old new) new x e over_new i in (l, k)))

      moved_there :
          not (eq_ℤ (get_sector_length old) (get_sector_length new)) ≡ false
          → Triple
              (Has (all_space old new) (Begins old))
              (move_filesystem w old new)
              (Ends (Has (all_space old new) (Begins new)) (Has (all_space old new) (Begins old)))
      moved_there h =
          let l = eq_ℤ→eq (get_sector_length old) (get_sector_length new) (ground (arith, h)) in
          move_filesystem-Triple old new (all_space old new) over_old over_new p q
            (record { length = same_extent old new p q l; sector_size = size })
            (move_to_same_start old new p q l)

      restored :
          (b : Bool)
          → Triple
              (Ends (Has (all_space old new) (Begins new)) (Has (all_space old new) (Begins old)) b)
              (branch b (pure true) (restore w old new))
              (Ends (Has (all_space old new) (Begins new)) Any)
      restored true = pure-Triple true (λ d i x. x)
      restored false = restore-Triple old new u p placed over_old

-- `move` of a partition whose file system fills at most its boundaries: at every moment all parts of the
-- file system lie inside the partition, whatever fails; and if the result is true, the partition has the
-- new boundaries and the file system is whole and begins at their start. Neither is a whole disk, both
-- lie on the drive, and their sectors have the same size; copying blocks back succeeds, a copy counts
-- what it has written, and an external tool that fails to move the file system leaves it in place.
pub move-Placed :
    (w : World) (old new : Attributes) (d : Disk)
    → CopiesBack w
    → type_is old.type type_unpartitioned ≡ false
    → type_is new.type type_unpartitioned ≡ false
    → IsPlaced old
    → IsPlaced new
    → new.sector_size ≡ old.sector_size
    → Placed old d
    → AlwaysInside d (move w old new []).1
      × Ends (Placed new) Any (move w old new []).0 (disk_after d (move w old new []).1)
move-Placed w old new d laws u v p q size x =
    (move-Triple w laws old new u v p q size).holds d [] (placed_inside old d x) x
