-- ===== src/Execute/Disk/Boundaries.antt =====
-- What the change of the boundaries in the partition table keeps and reaches (`resize_move_partition`).
use gparted_android.Prelude.{
  ◌≡◌, refl, ◌∙◌, Bool, true, false, ◌&&◌, ◌||◌, not, Bool-cases, inl, inr, arith,
}
use gparted_android.Prelude.Int.{ℤ, int_laws, ltb_ℤ, parts_of_eq, ltb_ℤ→ge}
use gparted_android.Partition.{Attributes, type_is, type_unpartitioned}
use gparted_android.Partition.Basic.{get_sector_length}
use gparted_android.Execute.{World, pure, ◌>>=◌, branch, set_geometry, update_dmraid}
use gparted_android.Execute.Disk.{
  Disk, IsInside, Triple, Ends, with_boundaries, bind-Triple, pure-Triple, and-Triple,
  weaken-Triple, branch-Triple,
}
use gparted_android.Execute.Partition.{
  Action, size_action, to_right, to_left, action_of, is_no_action, intersection, strictly,
  put_geometry, resize_move_partition,
}
use gparted_android.Execute.Disk.Rules.{
  Within, IsPlaced, length-IsPlaced, Has, HasOneOf, quiet-Triple, changing-Triple,
}

module _ (w : World) where
  put_geometry-Triple :
      {P Q R : Disk → Type 0} (old new : Attributes)
      → ((d : Disk)
          → P d
          → IsInside d
          → IsInside (with_boundaries new d)
            × Q (with_boundaries new d)
            × R (with_boundaries new d)
            × R d)
      → Triple P (put_geometry w old new) (Ends Q R)
  put_geometry-Triple {P = P} {Q = Q} {R = R} old new r =
      and-Triple
        (changing-Triple w (set_geometry old new) (with_boundaries new) (λ d. refl) (λ d. refl)
          both)
        (weaken-Triple (λ d x. x) forget
          (quiet-Triple w (update_dmraid new) (λ d. refl) (λ d. refl)))
    where
      Both : Disk → Type 0
      Both d = Q d × R d

      both :
          (d : Disk)
          → P d
          → IsInside d
          → IsInside (with_boundaries new d)
            × Both (with_boundaries new d)
            × R (with_boundaries new d)
            × R d
      both d p i = let (j, q, x, y) = r d p i in (j, (q, x), x, y)

      forget : (b : Bool) (d : Disk) → Ends Both Both b d → Ends Q R b d
      forget true d x = x.0
      forget false d x = x.1

  to_right_moves : (a : Action) → is_no_action (to_right a) ≡ false
  to_right_moves a = ground arith

  to_left_moves : (a : Action) → is_no_action (to_left a) ≡ false
  to_left_moves a = ground arith

  same_size :
      (old new : Attributes)
      → IsPlaced old
      → IsPlaced new
      → (ltb_ℤ old.sector_start new.sector_start && ltb_ℤ old.sector_end new.sector_end) ≡ false
      → (ltb_ℤ new.sector_start old.sector_start && ltb_ℤ new.sector_end old.sector_end) ≡ false
      → is_no_action (size_action old new) ≡ true
      → (old.sector_start ≡ new.sector_start) × (old.sector_end ≡ new.sector_end)
  same_size old new p q f g h =
      elim (Bool-cases (ltb_ℤ (get_sector_length old) (get_sector_length new))) [
        | inl k ↦ cc (rw (k, size_action) at h)
        | inr k ↦ elim (Bool-cases (ltb_ℤ (get_sector_length new) (get_sector_length old))) [
          | inl l ↦ cc (rw (k, l, size_action) at h)
          | inr l ↦
              let e = parts_of_eq (length-IsPlaced old p) in
              let e' = parts_of_eq (length-IsPlaced new q) in
              grind (
                int_laws,
                f,
                g,
                e,
                e',
                ltb_ℤ→ge (get_sector_length old) (get_sector_length new) k,
                ltb_ℤ→ge (get_sector_length new) (get_sector_length old) l,
              )
        ]
      ]

  -- If nothing is to be done, the boundaries are the same.
  no_action-same :
      (old new : Attributes)
      → IsPlaced old
      → IsPlaced new
      → is_no_action (action_of old new) ≡ true
      → (old.sector_start ≡ new.sector_start) × (old.sector_end ≡ new.sector_end)
  unfolding action_of
  no_action-same old new p q h =
      elim (Bool-cases
        (ltb_ℤ old.sector_start new.sector_start && ltb_ℤ old.sector_end new.sector_end)) [
          | inl f ↦ cc (to_right_moves (size_action old new), rw (f, action_of) at h)
          | inr f ↦
              elim (Bool-cases
                (ltb_ℤ new.sector_start old.sector_start && ltb_ℤ new.sector_end old.sector_end)) [
                  | inl g ↦ cc (to_left_moves (size_action old new), rw (f, g, action_of) at h)
                  | inr g ↦ same_size old new p q f g (rw (f, g, action_of) at h)
                ]
        ]

  Has-put :
      {I : ℤ → ℤ → Type 0} (p q : Attributes) (d : Disk)
      → ((s e : ℤ) → I s e → Within p s e)
      → Has q I d
      → IsInside (with_boundaries p d) × Has p I (with_boundaries p d)
  Has-put p q d within x =
      let (a, b) = within d.fs_start d.fs_end x.fs in
      (record { from = a; to = b }, record { start = refl; end = refl; fs = x.fs; whole = x.whole })

  put_back :
      {I : ℤ → ℤ → Type 0} (old new : Attributes) (d : Disk)
      → ((s e : ℤ) → I s e → Within old s e × Within new s e)
      → HasOneOf old new I d
      → IsInside (with_boundaries (strictly old) d) × Has old I (with_boundaries (strictly old) d)
  put_back old new d within (inl x) =
      let (i, y) = Has-put old old d (λ s e z. (within s e z).0) x in (i, y)
  put_back old new d within (inr x) =
      let (i, y) = Has-put old new d (λ s e z. (within s e z).0) x in (i, y)

  -- The file system has to lie inside both the old and the new boundaries. If the change fails, the
  -- partition has the one or the other.
  pub resize_move_partition-Triple :
      {I : ℤ → ℤ → Type 0} (old new : Attributes) (rollback : Bool)
      → type_is new.type type_unpartitioned ≡ false
      → IsPlaced old
      → IsPlaced new
      → ((s e : ℤ) → I s e → Within old s e × Within new s e)
      → Triple
          (Has old I)
          (resize_move_partition w old new rollback)
          (Ends (Has new I) (HasOneOf old new I))
  unfolding resize_move_partition
  resize_move_partition-Triple {I = I} old new rollback u p q within =
      branch-Triple {Q = Done}
        (type_is new.type type_unpartitioned || is_no_action (action_of old new))
        (λ h. pure-Triple true (λ d i x. unchanged d (rw u at h) x))
        (λ h. bind-Triple (put_geometry-Triple old new to_new) rest)
    where
      Done : Bool → Disk → Type 0
      Done = Ends (Has new I) (HasOneOf old new I)

      unchanged : (d : Disk) → is_no_action (action_of old new) ≡ true → Has old I d → Has new I d
      unchanged d h x =
          let (a, b) = no_action-same old new p q h in
          record { start = x.start ∙ a; end = x.end ∙ b; fs = x.fs; whole = x.whole }

      to_new :
          (d : Disk)
          → Has old I d
          → IsInside d
          → IsInside (with_boundaries new d)
            × Has new I (with_boundaries new d)
            × HasOneOf old new I (with_boundaries new d)
            × HasOneOf old new I d
      to_new d x i =
          let (j, y) = Has-put new old d (λ s e z. (within s e z).1) x in (j, y, inr y, inl x)

      to_old :
          (d : Disk)
          → HasOneOf old new I d
          → IsInside d
          → IsInside (with_boundaries (strictly old) d)
            × Has old I (with_boundaries (strictly old) d)
            × HasOneOf old new I (with_boundaries (strictly old) d)
            × HasOneOf old new I d
      to_old d x i = let (j, y) = put_back old new d within x in (j, y, inl y, x)

      rolled_back :
          (b : Bool) (d : Disk) → Ends (Has old I) (HasOneOf old new I) b d → HasOneOf old new I d
      rolled_back true d x = inl x
      rolled_back false d x = x

      rest :
          (b : Bool)
          → Triple
              (Done b)
              (branch
                (not b && rollback)
                (put_geometry w (intersection old new) (strictly old) >>= λ rollback_success.
                  pure b)
                (pure b))
              Done
      rest true = pure-Triple true (λ d i x. x)
      rest false =
          branch-Triple {Q = Done} rollback
            (λ k.
              bind-Triple (put_geometry-Triple (intersection old new) (strictly old) to_old)
                (λ b. pure-Triple false (λ d i x. rolled_back b d x)))
            (λ k. pure-Triple false (λ d i x. x))
