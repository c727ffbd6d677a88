-- ===== src/Operation.antt =====
-- include/Operation.h, src/Operation.cc and the constructors of its subclasses.
-- An operation keeps the device without its partitions and clones of the partitions that it is given.
-- Which of these pointers are set depends on the class alone, so the classes are the constructors of
-- `Operation`, and an assertion that a pointer is set cannot fail. The description for the user and
-- the log of the execution (`m_description`, `m_operation_detail`) are not modelled.
pub mod Visual
pub mod Search
pub mod Place
pub mod Merge
pub mod MergeLaws
pub mod VisualLaws
pub mod LogicalLaws
pub mod ResizeLaws
use gparted_android.Prelude.{ℕ, ◌==◌, Bool, Option, none, some}
use gparted_android.Partition.{Partition}
use gparted_android.Device.{Device, get_copy_without_partitions}

-- The types of operation that change one partition into another.
pub data Change : Type 0 where
  check create resize_move format label_filesystem change_uuid name_partition : Change

pub data Operation : Type 0 where
  deletion : Device → Partition → Operation
  changing : Change → Device → Partition → Partition → Operation
  copying : Device → Partition → Partition → Partition → Operation

-- The enumerators of `OperationType`.
abbrev pub change_code : Change → ℕ
change_code check = 1
change_code create = 2
change_code resize_move = 3
change_code format = 4
change_code label_filesystem = 6
change_code change_uuid = 7
change_code name_partition = 8

abbrev pub operation_type : Operation → ℕ
operation_type (deletion d o) = 0
operation_type (changing c d o n) = change_code c
operation_type (copying d o n s) = 5

abbrev pub change_is : Change → Change → Bool
change_is a b = change_code a == change_code b

-- The constructors, which take the copies.
unfoldable pub new_deletion : Device → Partition → Operation
new_deletion d original = deletion (get_copy_without_partitions d) original

unfoldable pub new_changing : Change → Device → Partition → Partition → Operation
new_changing c d original new = changing c (get_copy_without_partitions d) original new

-- `OperationCheck` has its partition for both.
unfoldable pub new_check : Device → Partition → Operation
unfolding new_changing
new_check d partition = new_changing check d partition partition

unfoldable pub new_copying : Device → Partition → Partition → Partition → Operation
new_copying d original new copied = copying (get_copy_without_partitions d) original new copied

abbrev pub device_of : Operation → Device
device_of (deletion d o) = d
device_of (changing c d o n) = d
device_of (copying d o n s) = d

abbrev pub partition_original : Operation → Partition
partition_original (deletion d o) = o
partition_original (changing c d o n) = o
partition_original (copying d o n s) = o

-- `none` where the accessor's assertion fails.
abbrev pub partition_new : Operation → Option Partition
partition_new (deletion d o) = none
partition_new (changing c d o n) = some n
partition_new (copying d o n s) = some n

abbrev pub partition_copied : Operation → Option Partition
partition_copied (deletion d o) = none
partition_copied (changing c d o n) = none
partition_copied (copying d o n s) = some s
