-- ===== src/Execute/Progress/ResizeMove.antt =====
-- The whole of `resize_move` succeeds if every step does.
use gparted_android.Prelude.{
  ℕ, suc, ◌≡◌, refl, sym, ap, Bool, true, false, ◌||◌, some, Bool-cases, inl, inr,
}
use gparted_android.Prelude.Int.{ℤ, ltb_ℤ, eq_ℤ, eq_ℤ→eq}
use gparted_android.Partition.{Attributes, Partition}
use gparted_android.Partition.Basic.{get_sector_length}
use gparted_android.Execute.{World, Step, succeeds, History, Run, ◌>>=◌}
use gparted_android.Execute.Partition.{strictly}
use gparted_android.Execute.Resize.{resize}
use gparted_android.Execute.Move.{move}
use gparted_android.Execute.ResizeMove.{
  resize_move, keeps_geometry, halfway, with_length, strictly_aligned, returned, and_then,
}
use gparted_android.Execute.Disk.ResizeMove.{IsPlain, halfway-IsPlain, strictly-IsPlain}
use gparted_android.Execute.Halfway.{IsDirect, length-strictly, halfway-IsBetween}
use gparted_android.Execute.Progress.{Succeeds, IsReady, resize-Succeeds, move-Succeeds}

neither : (b c : Bool) → b || c ≡ false → (b ≡ false) × (c ≡ false)
neither true c e = cc e
neither false c e = (refl, e)

strictly-IsReady : (w : World) (p : Attributes) → IsReady w p → IsReady w (strictly p)
strictly-IsReady w p r = record {
  idle = r.idle;
  object = r.object;
  checks = r.checks;
  grows = r.grows;
  shrinks = r.shrinks;
  moves = r.moves;
}

with_length-IsReady :
    (w : World) (n : ℤ) (p : Attributes) → IsReady w p → IsReady w (with_length n p)
with_length-IsReady w n p r = record {
  idle = r.idle;
  object = r.object;
  checks = r.checks;
  grows = r.grows;
  shrinks = r.shrinks;
  moves = r.moves;
}

halfway-IsReady :
    (w : World) (old new : Partition)
    → IsReady w old.attributes
    → IsReady w new.attributes
    → IsReady w (halfway old new).attributes
halfway-IsReady w old new r s =
    elim (Bool-cases
      (ltb_ℤ (get_sector_length old.attributes) (get_sector_length new.attributes))) [
        | inl l ↦ rw (l) (with_length-IsReady w (get_sector_length old.attributes) new.attributes s)
        | inr l ↦ rw (l) (with_length-IsReady w (get_sector_length new.attributes) old.attributes r)
      ]

module _ (w : World) (works : (h : History) (s : Step) → w.answer h s ≡ succeeds)
    (allowed : (p : Attributes) → w.resize_disallowed p ≡ false) where
  returned-Reaches : (m : Run Bool) (h : History) → Succeeds m → (returned m h).0 ≡ some true
  returned-Reaches m h t = ap some (t.holds h)

  once-Reaches :
      (n : ℕ) (old new : Partition) (h : History)
      → IsPlain old.attributes
      → IsPlain new.attributes
      → IsReady w old.attributes
      → IsReady w new.attributes
      → keeps_geometry new.attributes ≡ true
      → IsDirect old new
      → (resize_move w (suc n) old new h).0 ≡ some true
  unfolding resize_move
  once-Reaches n old new h p q r s g e =
      elim (Bool-cases (eq_ℤ new.sector_start old.sector_start)) [
        | inl k ↦
            rw (g, p.not_extended, k)
              (returned-Reaches (resize w old new) h (
                resize-Succeeds w works allowed old new q r s
                  (sym (eq_ℤ→eq new.sector_start old.sector_start k))))
        | inr k ↦
            let l = rw (k) at e in
            rw (g, p.not_extended, k, l)
              (returned-Reaches (move w old.attributes new.attributes) h (
                move-Succeeds w works allowed old.attributes new.attributes q r (
                  sym (
                    eq_ℤ→eq (get_sector_length new.attributes) (get_sector_length old.attributes)
                      l))))
      ]

  two_steps-Reaches :
      (n : ℕ) (old half new : Partition) (h : History)
      → IsPlain old.attributes
      → IsPlain half.attributes
      → IsPlain new.attributes
      → IsReady w old.attributes
      → IsReady w half.attributes
      → IsReady w new.attributes
      → keeps_geometry new.attributes ≡ true
      → IsDirect old half
      → IsDirect half new
      → ((resize_move w (suc n) old (strictly_aligned half) >>= λ r.
            and_then r (resize_move w (suc n) half new))
          h).0
        ≡ some true
  two_steps-Reaches n old half new h p i q r j s g e f =
      rw
        (once-Reaches n old (strictly_aligned half) h p (strictly-IsPlain half.attributes i) r
          (strictly-IsReady w half.attributes j) refl (rw (length-strictly half.attributes) e))
        (once-Reaches n half new _ i q j s g f)

  resize_move-Reaches :
      (n : ℕ) (old new : Partition) (h : History)
      → IsPlain old.attributes
      → IsPlain new.attributes
      → IsReady w old.attributes
      → IsReady w new.attributes
      → keeps_geometry new.attributes ≡ true
      → (resize_move w (suc (suc n)) old new h).0 ≡ some true
  unfolding resize_move
  resize_move-Reaches n old new h p q r s g =
      elim (Bool-cases (
        eq_ℤ new.sector_start old.sector_start
        || eq_ℤ (get_sector_length new.attributes) (get_sector_length old.attributes))) [
          | inl e ↦ once-Reaches (suc n) old new h p q r s g e
          | inr e ↦
              let (k, l) =
                neither (eq_ℤ new.sector_start old.sector_start)
                  (eq_ℤ (get_sector_length new.attributes) (get_sector_length old.attributes)) e in
              let b = halfway-IsBetween old new p.placed q.placed in
              rw (g, p.not_extended, k, l)
                (two_steps-Reaches n old (halfway old new) new h p (halfway-IsPlain old new p q) q r
                  (halfway-IsReady w old new r s) s g b.reached b.left)
        ]

-- `resize_move` of a plain partition (not a whole disk, extended, encrypted or swap) returns true if
-- every step succeeds, within two recursive calls: the partitions are not in use, the file system is
-- checked, grown and shrunk by external tools and moved by copying its blocks, no resize is disallowed,
-- and libparted need not adjust the new boundaries.
pub resize_move-Succeeds :
    (w : World) (n : ℕ) (old new : Partition) (h : History)
    → ((g : History) (s : Step) → w.answer g s ≡ succeeds)
    → ((p : Attributes) → w.resize_disallowed p ≡ false)
    → IsPlain old.attributes
    → IsPlain new.attributes
    → IsReady w old.attributes
    → IsReady w new.attributes
    → keeps_geometry new.attributes ≡ true
    → (resize_move w (suc (suc n)) old new h).0 ≡ some true
resize_move-Succeeds w n old new h works allowed p q r s g =
    resize_move-Reaches w works allowed n old new h p q r s g
