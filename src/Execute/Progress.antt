-- ===== src/Execute/Progress.antt =====
-- Resizing and moving succeed if every step does.
pub mod ResizeMove
use gparted_android.Prelude.{
  ℕ, suc, ◌≡◌, refl, sym, ap, Bool, true, false, ◌&&◌, ◌||◌, not, some, Bool-cases, inl, inr, arith,
}
use gparted_android.Prelude.Int.{ℤ, ltb_ℤ, leb_ℤ, eq_ℤ, eq_ℤ→eq, eq_ℤ_refl}
use gparted_android.Partition.{Attributes, Partition, type_is, type_unpartitioned}
use gparted_android.Partition.Basic.{get_sector_length}
use gparted_android.Execute.{
  World, Step, succeeds, History, external, gparted, Run, pure, ◌>>=◌, ◌&&&◌, when, branch, perform,
  set_geometry, update_dmraid, check_repair, copy_blocks, update_bootsector, resize_external,
}
use gparted_android.Execute.Filesystem.{
  is_luks, is_swap, is_ntfs, is_none, is_open_luks, resize_action, check_repair_filesystem,
  resize_filesystem_implement, shrink_filesystem, maximize_filesystem,
}
use gparted_android.Execute.Partition.{
  strictly, put_geometry, resize_move_partition, action_of, is_no_action, intersection,
}
use gparted_android.Execute.Resize.{resize, resize_plain}
use gparted_android.Execute.Move.{move, move_filesystem, all_space, restore}
use gparted_android.Execute.ResizeMove.{
  resize_move, keeps_geometry, halfway, with_length, strictly_aligned, returned, and_then,
}
use gparted_android.Execute.Disk.ResizeMove.{IsPlain, halfway-IsPlain, strictly-IsPlain}
use gparted_android.Execute.Halfway.{IsDirect, length-strictly, halfway-IsBetween}

-- The run returns true, whatever was done before.
pub record Succeeds (m : Run Bool) : Type 0 where
  pub holds : (h : History) → (m h).0 ≡ true

and-Succeeds : {m n : Run Bool} → Succeeds m → Succeeds n → Succeeds (m &&& n)
and-Succeeds {m = m} {n = n} t u = record { holds = λ h. after (m h).0 (t.holds h) (m h).1 }
  where
    after : (b : Bool) → b ≡ true → (h : History) → (when b n h).0 ≡ true
    after true e h = u.holds h
    after false e h = cc e

branch-Succeeds :
    (b : Bool) {m n : Run Bool}
    → (b ≡ true → Succeeds m)
    → (b ≡ false → Succeeds n)
    → Succeeds (branch b m n)
branch-Succeeds true t u = t refl
branch-Succeeds false t u = u refl

taken-Succeeds :
    {m : Run Bool} (n : Run Bool) (b : Bool) → b ≡ true → Succeeds m → Succeeds (branch b m n)
taken-Succeeds n true e t = t
taken-Succeeds n false e t = cc e

skipped-Succeeds :
    {n : Run Bool} (m : Run Bool) (b : Bool) → b ≡ false → Succeeds n → Succeeds (branch b m n)
skipped-Succeeds m true e t = cc e
skipped-Succeeds m false e t = t

pure-Succeeds : Succeeds (pure true)
pure-Succeeds = record { holds = λ h. refl }

-- A partition that is not in use, with a file system whose driver can do all that is asked here.
pub record IsReady (w : World) (p : Attributes) : Type 0 where
  pub idle : p.busy ≡ false
  pub object : w.has_object p.fstype ≡ true
  pub checks : (w.get_fs p.fstype).check ≡ external
  pub grows : (w.get_fs p.fstype).grow ≡ external
  pub shrinks : (w.get_fs p.fstype).shrink ≡ external
  pub moves : (w.get_fs p.fstype).move ≡ gparted

closed : (p : Attributes) → p.busy ≡ false → is_open_luks p ≡ false
closed p e = rw (e) (and_false (is_luks p.fstype))
  where
    and_false : (b : Bool) → (b && false) ≡ false
    and_false true = refl
    and_false false = refl

module _ (w : World) (works : (h : History) (s : Step) → w.answer h s ≡ succeeds)
    (allowed : (p : Attributes) → w.resize_disallowed p ≡ false) where
  perform-Succeeds : (s : Step) → Succeeds (perform w s)
  unfolding perform
  perform-Succeeds s = record { holds = λ h. rw (works h s) refl }

  check-Succeeds : (p : Attributes) → IsReady w p → Succeeds (check_repair_filesystem w p)
  unfolding check_repair_filesystem
  check-Succeeds p r = skipped-Succeeds _ (is_open_luks p) (closed p r.idle) (
      skipped-Succeeds _ p.busy r.idle (
        rw (r.checks)
          (taken-Succeeds _ (w.has_object p.fstype) r.object (perform-Succeeds (check_repair p)))))

  implement-Succeeds :
      (old new : Attributes)
      → old.busy ≡ false
      → IsReady w new
      → Succeeds (resize_filesystem_implement w old new)
  unfolding resize_filesystem_implement
  implement-Succeeds old new i r =
      rw (resize_action-external (leb_ℤ (get_sector_length old) (get_sector_length new))) (
        taken-Succeeds _ (w.has_object new.fstype) r.object (
          perform-Succeeds
            (resize_external new (leb_ℤ (get_sector_length old) (get_sector_length new)))))
    where
      resize_action-external :
          (fill : Bool) → resize_action w (w.get_fs new.fstype) fill old.busy ≡ external
      resize_action-external true = rw (i) r.grows
      resize_action-external false = rw (i) r.shrinks

  shrink-Succeeds :
      (old new : Attributes)
      → IsReady w old
      → IsReady w new
      → ltb_ℤ (get_sector_length new) (get_sector_length old) ≡ true
      → Succeeds (shrink_filesystem w old new)
  unfolding shrink_filesystem
  shrink-Succeeds old new r s l = skipped-Succeeds _ (is_open_luks old) (closed old r.idle) (
      skipped-Succeeds _ (leb_ℤ (get_sector_length old) (get_sector_length new)) (ground (arith, l))
        (implement-Succeeds old new r.idle s))

  maximize-Succeeds : (p : Attributes) → IsReady w p → Succeeds (maximize_filesystem w p)
  unfolding maximize_filesystem
  maximize-Succeeds p r = skipped-Succeeds _ (is_open_luks p) (closed p r.idle) (
      branch-Succeeds (is_none (w.get_fs p.fstype).grow) (λ k. pure-Succeeds)
        (λ k.
          skipped-Succeeds _ (w.resize_disallowed p) (allowed p) (implement-Succeeds p p r.idle r)))

  put_geometry-Succeeds : (old new : Attributes) → Succeeds (put_geometry w old new)
  put_geometry-Succeeds old new =
      and-Succeeds (perform-Succeeds (set_geometry old new)) (perform-Succeeds (update_dmraid new))

  resize_move_partition-Succeeds :
      (old new : Attributes) (rollback : Bool) → Succeeds (resize_move_partition w old new rollback)
  unfolding resize_move_partition
  resize_move_partition-Succeeds old new rollback =
      branch-Succeeds (type_is new.type type_unpartitioned || is_no_action (action_of old new))
        (λ k. pure-Succeeds)
        (λ k. record {
          holds =
              λ h. first (put_geometry w old new h).0 ((put_geometry-Succeeds old new).holds h) _;
        })
    where
      first :
          (b : Bool)
          → b ≡ true
          → (h : History)
          → (branch
              (not b && rollback)
              (put_geometry w (intersection old new) (strictly old) >>= λ rollback_success. pure b)
              (pure b)
              h).0
            ≡ true
      first true e h = refl
      first false e h = cc e

  resize_plain-Succeeds :
      (old new : Attributes)
      → IsReady w old
      → IsReady w new
      → is_swap new.fstype ≡ false
      → Succeeds (resize_plain w old new)
  unfolding resize_plain
  resize_plain-Succeeds old new r s n = skipped-Succeeds _ (is_open_luks old) (closed old r.idle) (
      skipped-Succeeds _ (is_swap new.fstype) n (
        branch-Succeeds (ltb_ℤ (get_sector_length new) (get_sector_length old))
          (λ l.
            and-Succeeds (and-Succeeds (check-Succeeds new s) (shrink-Succeeds old new r s l))
              (resize_move_partition-Succeeds old new false))
          (λ l.
            branch-Succeeds (ltb_ℤ (get_sector_length old) (get_sector_length new))
              (λ l'.
                and-Succeeds
                  (and-Succeeds (check-Succeeds new s)
                    (resize_move_partition-Succeeds old new true))
                  (maximize-Succeeds new s))
              (λ l'. pure-Succeeds))))

  pub resize-Succeeds :
      (old new : Partition)
      → IsPlain new.attributes
      → IsReady w old.attributes
      → IsReady w new.attributes
      → old.sector_start ≡ new.sector_start
      → Succeeds (resize w old new)
  unfolding resize
  resize-Succeeds old new p r s e =
      skipped-Succeeds _ (not (eq_ℤ old.sector_start new.sector_start))
        (rw (e, eq_ℤ_refl new.sector_start) refl)
        (skipped-Succeeds _ (is_luks new.fstype) p.no_luks
          (resize_plain-Succeeds old.attributes new.attributes r s p.no_swap))

  move_filesystem-Succeeds :
      (old new : Attributes) → IsReady w old → Succeeds (move_filesystem w old new)
  unfolding move_filesystem perform
  move_filesystem-Succeeds old new r =
      branch-Succeeds (eq_ℤ new.sector_start old.sector_start) (λ k. pure-Succeeds)
        (λ k. rw (r.moves) (record { holds = λ h. rw (works h (copy_blocks old new true)) refl }))

  pub move-Succeeds :
      (old new : Attributes)
      → IsPlain new
      → IsReady w old
      → get_sector_length old ≡ get_sector_length new
      → Succeeds (move w old new)
  unfolding move
  move-Succeeds old new p r e =
      skipped-Succeeds _ (not (eq_ℤ (get_sector_length old) (get_sector_length new)))
        (rw (e, eq_ℤ_refl (get_sector_length new)) refl)
        (and-Succeeds
          (and-Succeeds
            (and-Succeeds
              (and-Succeeds
                (and-Succeeds (check-Succeeds old r)
                  (resize_move_partition-Succeeds old (all_space old new) true))
                (record {
                  holds = λ h.
                      moved (move_filesystem w old new h).0
                        ((move_filesystem-Succeeds old new r).holds h) _;
                }))
              (resize_move_partition-Succeeds (all_space old new) new false))
            (branch-Succeeds (is_ntfs new.fstype) (λ k. perform-Succeeds (update_bootsector new))
              (λ k. pure-Succeeds)))
          (skipped-Succeeds _ (is_swap new.fstype) p.no_swap pure-Succeeds))
    where
      moved :
          (b : Bool)
          → b ≡ true
          → (h : History) → (branch b (pure true) (restore w old new) h).0 ≡ true
      moved true e h = refl
      moved false e h = cc e
