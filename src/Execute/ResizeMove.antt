-- ===== src/Execute/ResizeMove.antt =====
-- Resizing and moving in one operation (src/GParted_Core.cc).
use gparted_android.Prelude.{
  ℕ, zero, suc, Bool, true, false, ◌||◌, if◌then◌else◌, Option, none, some,
}
use gparted_android.Prelude.Int.{ℤ, pos, ◌+ℤ◌, ◌-ℤ◌, ltb_ℤ, eq_ℤ}
use gparted_android.Partition.{Attributes, Partition, type_is, type_extended, with_attributes}
use gparted_android.Partition.Basic.{get_sector_length}
use gparted_android.Execute.{
  World, Run, pure, ◌>>=◌, branch, perform, exact_geometry, update_dmraid,
}
use gparted_android.Execute.Partition.{strictly, is_exact_alignment, resize_move_partition}
use gparted_android.Execute.Resize.{resize}
use gparted_android.Execute.Move.{move}

abbrev pub keeps_geometry : Attributes → Bool
keeps_geometry p = is_exact_alignment p.alignment || p.strict_start

-- The same start, with the given length.
abbrev pub with_length : ℤ → Attributes → Attributes
with_length n p = record p { sector_end = p.sector_start +ℤ n -ℤ pos 1 }

-- Between a move and a resize: the new place with the old length, or the old place with the new one.
abbrev pub halfway : Partition → Partition → Partition
halfway old new =
    if ltb_ℤ (get_sector_length old.attributes) (get_sector_length new.attributes)
    then with_attributes (with_length (get_sector_length old.attributes) new.attributes) new
    else with_attributes (with_length (get_sector_length new.attributes) old.attributes) old

abbrev pub strictly_aligned : Partition → Partition
strictly_aligned p = with_attributes (strictly p.attributes) p

abbrev pub returned : Run Bool → Run (Option Bool)
returned m = m >>= λ b. pure (some b)

-- The rest of the chain after a step that may have used up the fuel.
abbrev pub and_then : Option Bool → Run (Option Bool) → Run (Option Bool)
and_then none k = pure none
and_then (some false) k = pure (some false)
and_then (some true) k = k

module _ (w : World) where
  -- `calculate_exact_geom`: the new partition with the boundaries that libparted would set.
  unfoldable pub calculate_exact_geom : Partition → Partition → Run (Option Partition)
  calculate_exact_geom old new =
      perform w (exact_geometry old.attributes new.attributes) >>= λ success.
      branch success
        (λ h.
          let (start, end) = w.geometry_set h new.attributes in
          let set : Partition =
            with_attributes (record (new.attributes) { sector_start = start; sector_end = end })
              new in
          (perform w (update_dmraid set.attributes) >>= λ ok.
          branch ok (pure (some set)) (pure none))
            h)
        (pure none)

  abbrev pub exactly : Partition → Partition → Run (Option Partition)
  exactly old new =
      branch (keeps_geometry new.attributes) (pure (some new)) (calculate_exact_geom old new)

  -- What is done when the boundaries are known; `again` is the recursive call.
  abbrev pub resize_move_to :
      (Partition → Partition → Run (Option Bool)) → Partition → Option Partition → Run (Option Bool)
  resize_move_to again old none = pure (some false)
  resize_move_to again old (some new) =
      branch (type_is old.type type_extended)
        (returned (resize_move_partition w old.attributes new.attributes false))
        (branch (eq_ℤ new.sector_start old.sector_start) (returned (resize w old new)) (
          branch (eq_ℤ (get_sector_length new.attributes) (get_sector_length old.attributes))
            (returned (move w old.attributes new.attributes))
            (again old (strictly_aligned (halfway old new)) >>= λ r.
              and_then r (again (halfway old new) new))))

  -- The recursion is on fuel; `none` if it is used up.
  unfoldable pub resize_move : ℕ → Partition → Partition → Run (Option Bool)
  resize_move zero old new = pure none
  resize_move (suc fuel) old new = exactly old new >>= resize_move_to (resize_move fuel) old
