-- ===== src/Pending.antt =====
-- The pending operations of the main window (src/Win_GParted.cc): `add_operation`,
-- `merge_operation`, `operations_affect_same_partition`, `remove_operation`, `activate_undo`,
-- `partition_in_operation_queue_count` and the loop at the head of `Refresh_Visual`; and
-- `GParted_Core::valid_partition` (src/GParted_Core_Adb.cc), which guards the list.
pub mod Laws
pub mod Boundaries
use gparted_android.Prelude.{
  ℕ, zero, suc, ◌+◌, if◌then◌else◌, Bool, true, false, not, ◌&&◌, ◌||◌, Option, none, some, List,
  [], ◌∷◌, ◌++◌, length, ltb,
}
use gparted_android.Prelude.Int.{ℤ, pos, negsuc, ltb_ℤ, leb_ℤ, ◌+ℤ◌, ◌-ℤ◌}
use gparted_android.Prelude.Text.{Text, text_eq}
use gparted_android.Utils.{Gettext}
use gparted_android.Partition.{Partition}
use gparted_android.Partition.Basic.{get_sector_length}
use gparted_android.Device.{Device, same_device}
use gparted_android.Operation.{
  Operation, deletion, changing, copying, Change, create, resize_move, change_is,
  partition_original, device_of,
}
use gparted_android.Operation.Visual.{apply_to_visual}
use gparted_android.Operation.Merge.{merge_operations}

-- The message that `valid_partition` composes, with the numbers that it hands over.
pub data Invalid : Type 0 where
  cannot_start cannot_end bad_length : ℤ → Invalid
  too_much_used : ℤ → ℤ → Invalid

unfoldable pub valid_partition : Device → Partition → Option Invalid
valid_partition device p =
    let len = get_sector_length p.attributes in
    if ltb_ℤ p.sector_start (pos 0)
    then some (cannot_start p.sector_start)
    else if leb_ℤ device.length p.sector_end
    then some (cannot_end p.sector_start)
    else if leb_ℤ len (pos 0)
    then some (bad_length len)
    else if ltb_ℤ len p.sectors_used
    then some (too_much_used p.sectors_used len)
    else none

abbrev same_path : Partition → Partition → Bool
same_path p q = text_eq p.path q.path

unfoldable pub operations_affect_same_partition : Operation → Operation → Bool
operations_affect_same_partition (deletion d o) second = false
operations_affect_same_partition (changing c d o n) (copying d' o' n' s') =
    if same_path n o' then true else same_path n s'
operations_affect_same_partition (changing c d o n) second = same_path n (partition_original second)
operations_affect_same_partition (copying d o n s) (copying d' o' n' s') =
    if same_path n o'
    then true
    else if same_path s o'
    then true
    else if same_path n s'
    then true
    else same_path s s'
operations_affect_same_partition (copying d o n s) second =
    if same_path n (partition_original second)
    then true
    else same_path s (partition_original second)

module _ (tr : Gettext) (candidate : Operation) where
  -- The search of `merge_operation` goes backwards, so what stands later in the list is looked at
  -- first; `none` if nothing here affects the same partition.
  unfoldable pub merge_latest : List Operation → Option (List Operation × Bool)
  merge_latest [] = none
  merge_latest (op ∷ later) = elim (merge_latest later) [
    | some (later', merged) ↦ some (op ∷ later', merged)
    | none ↦
        let (op', merged) = merge_operations tr op candidate in
        if operations_affect_same_partition op candidate then some (op' ∷ later, merged) else none
  ]

  unfoldable pub merge_operation : List Operation → List Operation × Bool
  unfolding merge_latest
  merge_operation ops = elim (merge_latest ops) [ none ↦ (ops, false) | some r ↦ r ]

-- The operations whose new boundaries are checked, with the partition that has them.
abbrev pub checked : Operation → Option Partition
checked (deletion d o) = none
checked (copying d o n s) = some n
checked (changing c d o n) = if change_is c create || change_is c resize_move then some n else none

abbrev pub refusal : Device → Operation → Option Invalid
refusal device op = elim (checked op) [ none ↦ none | some n ↦ valid_partition device n ]

-- The new list, and the error shown. The argument is a null pointer if it is `none`.
unfoldable pub add_operation :
    Gettext → Device → Option Operation → List Operation → List Operation × Option Invalid
add_operation tr device none ops = (ops, none)
add_operation tr device (some op) ops = elim (refusal device op) [
  | some error ↦ (ops, some error)
  | none ↦
      let (ops', merged) = merge_operation tr op ops in
      if merged then (ops', none) else (ops' ++ op ∷ [], none)
]

pub data OperationRemoveType : Type 0 where
  remove_all remove_last remove_at : OperationRemoveType

abbrev drop_last : List Operation → List Operation
drop_last [] = []
drop_last (op ∷ []) = []
drop_last (op ∷ next ∷ ops) = op ∷ drop_last (next ∷ ops)

abbrev erase_at : ℕ → List Operation → List Operation
erase_at i [] = []
erase_at zero (op ∷ ops) = ops
erase_at (suc i) (op ∷ ops) = op ∷ erase_at i ops

-- An index that is negative or past the end removes nothing.
abbrev erase_checked : ℤ → List Operation → List Operation
erase_checked (pos i) ops = if ltb i (length ops) then erase_at i ops else ops
erase_checked (negsuc i) ops = ops

unfoldable pub remove_operation : OperationRemoveType → ℤ → List Operation → List Operation
remove_operation remove_all index ops = []
remove_operation remove_last index ops = drop_last ops
remove_operation remove_at index ops = erase_checked index ops

unfoldable pub partition_in_operation_queue_count : Partition → List Operation → ℕ
partition_in_operation_queue_count p [] = 0
partition_in_operation_queue_count p (op ∷ ops) =
    let more = partition_in_operation_queue_count p ops in
    if same_path p (partition_original op) then more + 1 else more

-- The partitions that are shown: the pending operations of the device, applied in order.
unfoldable pub show_operations : Gettext → Device → List Operation → List Partition → List Partition
show_operations tr device [] ps = ps
show_operations tr device (op ∷ ops) ps =
    show_operations tr device ops
      (if same_device (device_of op) device then apply_to_visual tr op ps else ps)

unfoldable pub display_device : Gettext → Device → List Operation → Device
unfolding show_operations
display_device tr device ops = record device {
  partitions = show_operations tr device ops device.partitions;
}
