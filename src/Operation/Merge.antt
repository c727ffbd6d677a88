-- ===== src/Operation/Merge.antt =====
-- `merge_operations` of each class (src/Operation*.cc).
use gparted_android.Prelude.{if◌then◌else◌, Bool, true, false, ◌&&◌, Option, none, some}
use gparted_android.Prelude.Text.{Text, codes, text_eq}
use gparted_android.Utils.{Gettext}
use gparted_android.Partition.{Partition, stat_new, status_is, with_attributes}
use gparted_android.Partition.Basic.{same_partition}
use gparted_android.Partition.Members.{set_filesystem_label, get_filesystem_label}
use gparted_android.Operation.{
  Operation, deletion, changing, copying, Change, check, create, resize_move, format,
  label_filesystem, change_uuid, name_partition, change_is,
}

-- The new state of the first operation, and whether the candidate was merged into it.
abbrev pub keep : Operation → Operation × Bool
keep op = (op, false)

-- The candidate has the type `c` and starts from the partition that the first one ends with.
abbrev pub continues : Change → Change → Partition → Partition → Bool
continues c candidate n o = change_is candidate c && same_partition n o

abbrev pub uuid_random_ntfs_half : Gettext → Text
uuid_random_ntfs_half tr = tr (codes "(Half new UUID - will be randomly generated)")

abbrev pub with_uuid : Text → Partition → Partition
with_uuid u p = with_attributes (record (p.attributes) { uuid = u }) p

abbrev pub with_name : Text → Partition → Partition
with_name s p = with_attributes (record (p.attributes) { name = s }) p

abbrev pub with_label : Text → Partition → Partition
with_label s p = with_attributes (set_filesystem_label s p.attributes) p

-- `OperationCheck`
abbrev pub merge_check : Partition → Change → Partition → Option Partition
merge_check n c o = if continues check c n o then some n else none

-- `OperationCreate`: a format or a move of the partition that is being created.
abbrev pub merge_create : Partition → Change → Partition → Partition → Option Partition
merge_create n c o m =
    if change_is c format && (status_is o.status stat_new && same_partition n o)
    then some m
    else if change_is c resize_move && (status_is o.status stat_new && same_partition n o)
    then some m
    else none

-- `OperationResizeMove`
abbrev pub merge_resize_move : Partition → Change → Partition → Partition → Option Partition
merge_resize_move n c o m = if continues resize_move c n o then some m else none

-- `OperationFormat`
abbrev pub merge_format : Partition → Change → Partition → Partition → Option Partition
merge_format n c o m = if continues format c n o then some m else none

-- `OperationLabelFileSystem`
abbrev pub merge_label : Partition → Change → Partition → Partition → Option Partition
merge_label n c o m =
    if continues label_filesystem c n o
    then some (with_label (get_filesystem_label m.attributes) n)
    else none

-- `OperationChangeUUID`: half a new identifier does not replace the first one.
abbrev pub merge_uuid : Gettext → Partition → Change → Partition → Partition → Option Partition
merge_uuid tr n c o m =
    if continues change_uuid c n o
    then some (if text_eq m.uuid (uuid_random_ntfs_half tr) then n else with_uuid m.uuid n)
    else none

-- `OperationNamePartition`
abbrev pub merge_name : Partition → Change → Partition → Partition → Option Partition
merge_name n c o m = if continues name_partition c n o then some (with_name m.name n) else none

-- Of a first operation that changes, with a candidate that changes: the new partition of the merged
-- operation, if it is merged.
unfoldable pub merge_changes :
    Gettext → Change → Partition → Change → Partition → Partition → Option Partition
merge_changes tr check n c o m = merge_check n c o
merge_changes tr create n c o m = merge_create n c o m
merge_changes tr resize_move n c o m = merge_resize_move n c o m
merge_changes tr format n c o m = merge_format n c o m
merge_changes tr label_filesystem n c o m = merge_label n c o m
merge_changes tr change_uuid n c o m = merge_uuid tr n c o m
merge_changes tr name_partition n c o m = merge_name n c o m

unfoldable pub merge_operations : Gettext → Operation → Operation → Operation × Bool
merge_operations tr (deletion d o) candidate = keep (deletion d o)
merge_operations tr (copying d o n s) candidate = keep (copying d o n s)
merge_operations tr (changing c d o n) (changing c' d' o' n') =
    elim (merge_changes tr c n c' o' n') [
      | none ↦ keep (changing c d o n)
      | some m ↦ (changing c d o m, true)
    ]
merge_operations tr (changing c d o n) candidate = keep (changing c d o n)
