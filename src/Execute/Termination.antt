-- ===== src/Execute/Termination.antt =====
-- `resize_move` ends.
use gparted_android.Prelude.{
  ℕ, suc, ◌≡◌, refl, Bool, true, false, Option, none, some, Bool-cases, inl, inr,
}
use gparted_android.Prelude.Int.{eq_ℤ}
use gparted_android.Partition.{Partition, type_is, type_extended}
use gparted_android.Partition.Basic.{get_sector_length}
use gparted_android.Execute.{World, Run, History, ◌>>=◌, branch}
use gparted_android.Execute.Disk.Rules.{IsPlaced}
use gparted_android.Execute.Partition.{resize_move_partition}
use gparted_android.Execute.Resize.{resize}
use gparted_android.Execute.Move.{move}
use gparted_android.Execute.ResizeMove.{
  resize_move, resize_move_to, halfway, strictly_aligned, keeps_geometry, returned, and_then,
}
use gparted_android.Execute.Success.{is_some}
use gparted_android.Execute.Halfway.{length-strictly, IsDirect, halfway-IsBetween}

abbrev Returns : Run (Option Bool) → Type 0
Returns m = (h : History) → is_some (m h).0 ≡ true

branch-Returns :
    (b : Bool) (m n : Run (Option Bool)) → Returns m → Returns n → Returns (branch b m n)
branch-Returns true m n t u = t
branch-Returns false m n t u = u

returned-Returns : (m : Run Bool) → Returns (returned m)
returned-Returns m h = refl

module _ (w : World) where
  direct-Returns :
      (again : Partition → Partition → Run (Option Bool)) (old new : Partition)
      → IsDirect old new
      → Returns (resize_move_to w again old (some new))
  direct-Returns again old new e h = elim (Bool-cases (type_is old.type type_extended)) [
    | inl k ↦ rw (k) refl
    | inr k ↦ elim (Bool-cases (eq_ℤ new.sector_start old.sector_start)) [
      | inl l ↦ rw (k, l) refl
      | inr l ↦ rw (k, l, rw (l) at e) refl
    ]
  ]

  once-Returns :
      (n : ℕ) (old new : Partition)
      → keeps_geometry new.attributes ≡ true
      → IsDirect old new
      → Returns (resize_move w (suc n) old new)
  unfolding resize_move
  once-Returns n old new g e h = rw (g) (direct-Returns (resize_move w n) old new e h)

  then-Returns :
      (r : Option Bool) (m : Run (Option Bool)) (h : History)
      → is_some r ≡ true
      → Returns m
      → is_some (and_then r m h).0 ≡ true
  then-Returns none m h e t = cc e
  then-Returns (some true) m h e t = t h
  then-Returns (some false) m h e t = refl

  two_steps-Returns :
      (n : ℕ) (old half new : Partition)
      → keeps_geometry new.attributes ≡ true
      → IsDirect old half
      → IsDirect half new
      → Returns (
          resize_move w (suc n) old (strictly_aligned half) >>= λ r.
          and_then r (resize_move w (suc n) half new))
  two_steps-Returns n old half new g e f h =
      then-Returns (resize_move w (suc n) old (strictly_aligned half) h).0
        (resize_move w (suc n) half new) _
        (once-Returns n old (strictly_aligned half) refl (rw (length-strictly half.attributes) e) h)
        (once-Returns n half new g f)

  -- `resize_move` needs at most two recursive calls, one after the other, whatever the partitions and
  -- the answers of the world are, if both partitions lie on the drive and libparted need not adjust the
  -- new boundaries.
  pub resize_move-Returns :
      (n : ℕ) (old new : Partition) (h : History)
      → IsPlaced old.attributes
      → IsPlaced new.attributes
      → keeps_geometry new.attributes ≡ true
      → is_some (resize_move w (suc (suc n)) old new h).0 ≡ true
  unfolding resize_move
  resize_move-Returns n old new h p q g = rw (g) (by_action h)
    where
      by_action : Returns (resize_move_to w (resize_move w (suc n)) old (some new))
      by_action =
          let s = halfway-IsBetween old new p q in
          branch-Returns (type_is old.type type_extended) _ _
            (returned-Returns (resize_move_partition w old.attributes new.attributes false))
            (branch-Returns (eq_ℤ new.sector_start old.sector_start) _ _
              (returned-Returns (resize w old new))
              (branch-Returns
                (eq_ℤ (get_sector_length new.attributes) (get_sector_length old.attributes)) _ _
                (returned-Returns (move w old.attributes new.attributes))
                (two_steps-Returns n old (halfway old new) new g s.reached s.left)))
