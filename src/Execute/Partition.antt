-- ===== src/Execute/Partition.antt =====
-- `resize_move_partition` (src/GParted_Core.cc): the boundaries in the partition table, with a
-- rollback.
use gparted_android.Prelude.{Bool, true, false, ◌&&◌, ◌||◌, not, if◌then◌else◌}
use gparted_android.Prelude.Int.{ℤ, ltb_ℤ}
use gparted_android.Partition.{
  Attributes, PartitionAlignment, align_strict, align_mebibyte, type_is, type_unpartitioned,
}
use gparted_android.Partition.Basic.{get_sector_length}
use gparted_android.Partition.Usage.{min_ℤ}
use gparted_android.Execute.{
  World, Run, pure, ◌>>=◌, ◌&&&◌, branch, perform, set_geometry, update_dmraid,
}

abbrev pub max_ℤ : ℤ → ℤ → ℤ
max_ℤ a b = if ltb_ℤ a b then b else a

pub data Action : Type 0 where
  no_action move_right move_left grow shrink : Action
  move_right_grow move_right_shrink move_left_grow move_left_shrink : Action

abbrev pub size_action : Attributes → Attributes → Action
size_action old new =
    if ltb_ℤ (get_sector_length old) (get_sector_length new)
    then grow
    else if ltb_ℤ (get_sector_length new) (get_sector_length old)
    then shrink
    else no_action

abbrev pub to_right : Action → Action
to_right grow = move_right_grow
to_right shrink = move_right_shrink
to_right _ = move_right

abbrev pub to_left : Action → Action
to_left grow = move_left_grow
to_left shrink = move_left_shrink
to_left _ = move_left

unfoldable pub action_of : Attributes → Attributes → Action
action_of old new =
    if ltb_ℤ old.sector_start new.sector_start && ltb_ℤ old.sector_end new.sector_end
    then to_right (size_action old new)
    else if ltb_ℤ new.sector_start old.sector_start && ltb_ℤ new.sector_end old.sector_end
    then to_left (size_action old new)
    else size_action old new

abbrev pub is_no_action : Action → Bool
is_no_action no_action = true
is_no_action _ = false

abbrev pub strictly : Attributes → Attributes
strictly p = record p { alignment = align_strict }

abbrev pub is_exact_alignment : PartitionAlignment → Bool
is_exact_alignment align_strict = true
is_exact_alignment align_mebibyte = true
is_exact_alignment _ = false

-- What both boundaries have in common, where the partition is looked for.
abbrev pub intersection : Attributes → Attributes → Attributes
intersection old new = record new {
  sector_start = max_ℤ old.sector_start new.sector_start;
  sector_end = min_ℤ old.sector_end new.sector_end;
}

module _ (w : World) where
  -- `resize_move_partition_implement`, and the entry of the device mapper.
  abbrev pub put_geometry : Attributes → Attributes → Run Bool
  put_geometry old new = perform w (set_geometry old new) &&& perform w (update_dmraid new)

  unfoldable pub resize_move_partition : Attributes → Attributes → Bool → Run Bool
  resize_move_partition old new rollback_on_fail =
      branch (type_is new.type type_unpartitioned || is_no_action (action_of old new)) (pure true) (
        put_geometry old new >>= λ success.
        branch (not success && rollback_on_fail)
          (put_geometry (intersection old new) (strictly old) >>= λ rollback_success. pure success)
          (pure success))
