-- ===== src/Partition/Luks.antt =====
-- src/PartitionLUKS.cc, and the virtual methods of both classes: what a call on a `Partition` runs.
use gparted_android.Prelude.{
  if◌then◌else◌, Bool, true, false, ◌&&◌, ◌||◌, none, some, List, [], ◌∷◌, ◌++◌,
}
use gparted_android.Prelude.Int.{ℤ, pos, negsuc, ◌+ℤ◌, ◌-ℤ◌, ltb_ℤ, leb_ℤ}
use gparted_android.Prelude.Text.{Text, codes}
use gparted_android.Utils.{
  Gettext, get_filesystem_string, get_encrypted_string, get_encrypted_filesystem_string,
}
use gparted_android.Partition.{
  PartitionType, type_primary, type_logical, type_extended, type_unallocated, type_unpartitioned,
  FsType, Attributes, LuksPart, Partition, with_attributes, none_left,
}
use gparted_android.Partition.Basic.{
  get_sector_length, new_attributes, set_unpartitioned_attributes,
}
use gparted_android.Partition.Members.{
  set_filesystem_label, get_filesystem_label, clear_mountpoints, add_mountpoints, append_messages,
}
use gparted_android.Partition.Usage
use gparted_android.Partition.Usage.{Doubles, set_sector_usage, resize_attributes, min_ℤ}

-- `PartitionLUKS::PartitionLUKS`
unfoldable pub new_luks : Partition
unfolding new_attributes
new_luks = record {
  attributes = new_attributes;
  luks = some (record { header_size = pos 0; encrypted = new_attributes });
  logical_vector = none_left;
}

-- `set_luks`, on the subclass part.
unfoldable pub set_luks : Gettext → Text → FsType → ℤ → ℤ → ℤ → Bool → LuksPart → LuksPart
unfolding set_unpartitioned_attributes
set_luks tr path fstype header_size mapping_size sector_size busy l = record {
  header_size = header_size;
  encrypted =
      set_unpartitioned_attributes tr path path fstype mapping_size sector_size busy l.encrypted;
}

unfoldable pub sector_usage_known : Partition → Bool
unfolding Usage.sector_usage_known
sector_usage_known p = elim p.luks [
  | none ↦ Usage.sector_usage_known p.attributes
  | some l ↦
      if p.busy
      then Usage.sector_usage_known p.attributes && Usage.sector_usage_known l.encrypted
      else Usage.sector_usage_known p.attributes
]

abbrev total_used : LuksPart → ℤ
total_used l = l.header_size +ℤ l.encrypted.sectors_used

abbrev pub total_unallocated : Attributes → LuksPart → ℤ
total_unallocated a l = a.sectors_unallocated +ℤ l.encrypted.sectors_unallocated

abbrev both_known : Attributes → LuksPart → Bool
both_known a l = leb_ℤ (pos 0) a.sectors_used && leb_ℤ (pos 0) l.encrypted.sectors_used

unfoldable pub estimated_min_size : Partition → ℤ
unfolding Usage.estimated_min_size
estimated_min_size p = elim p.luks [
  | none ↦ Usage.estimated_min_size p.attributes
  | some l ↦
      if p.busy
      then if both_known p.attributes l
        then total_used l +ℤ min_ℤ (total_unallocated p.attributes l) p.significant_threshold
        else negsuc 0
      else Usage.estimated_min_size p.attributes
]

unfoldable pub get_sectors_used : Partition → ℤ
unfolding Usage.get_sectors_used
get_sectors_used p = elim p.luks [
  | none ↦ Usage.get_sectors_used p.attributes
  | some l ↦
      if p.busy
      then if both_known p.attributes l
        then if ltb_ℤ (total_unallocated p.attributes l) p.significant_threshold
          then total_used l +ℤ total_unallocated p.attributes l
          else total_used l
        else negsuc 0
      else Usage.get_sectors_used p.attributes
]

unfoldable pub get_sectors_unused : Partition → ℤ
unfolding Usage.get_sectors_unused
get_sectors_unused p = elim p.luks [
  | none ↦ Usage.get_sectors_unused p.attributes
  | some l ↦
      if p.busy then Usage.get_sectors_unused l.encrypted else Usage.get_sectors_unused p.attributes
]

unfoldable pub get_sectors_unallocated : Partition → ℤ
unfolding Usage.get_sectors_unallocated
get_sectors_unallocated p = elim p.luks [
  | none ↦ Usage.get_sectors_unallocated p.attributes
  | some l ↦
      if p.busy
      then if ltb_ℤ (total_unallocated p.attributes l) p.significant_threshold
        then pos 0
        else total_unallocated p.attributes l
      else Usage.get_sectors_unallocated p.attributes
]

abbrev any_message : List Text → Bool
any_message [] = false
any_message (m ∷ ms) = true

unfoldable pub have_messages : Partition → Bool
have_messages p = elim p.luks [
  | none ↦ any_message p.messages
  | some l ↦
      if p.busy
      then any_message p.messages || any_message l.encrypted.messages
      else any_message p.messages
]

unfoldable pub get_messages : Partition → List Text
get_messages p = elim p.luks [
  | none ↦ p.messages
  | some l ↦ if p.busy then p.messages ++ l.encrypted.messages else p.messages
]

unfoldable pub clear_messages : Partition → Partition
clear_messages p = record {
  attributes = record (p.attributes) { messages = [] };
  luks = elim p.luks [
    | none ↦ none
    | some l ↦ some (record l { encrypted = record (l.encrypted) { messages = [] } })
  ];
  logical_vector = p.logical_vector;
}

-- `get_filesystem_partition`: the attributes of the partition that holds the file system.
unfoldable pub get_filesystem_partition : Partition → Attributes
get_filesystem_partition p = elim p.luks [
  | none ↦ p.attributes
  | some l ↦ if p.busy then l.encrypted else p.attributes
]

-- The virtual `get_filesystem_string`.
unfoldable pub partition_filesystem_string : Gettext → Partition → Text
partition_filesystem_string tr p = elim p.luks [
  | none ↦ get_filesystem_string tr p.fstype
  | some l ↦
      if p.busy
      then get_encrypted_filesystem_string tr true l.encrypted.fstype
      else get_encrypted_string tr
]

-- `Partition::get_partition_type_string`
unfoldable pub get_partition_type_string : Gettext → PartitionType → Text
get_partition_type_string tr type_primary = tr (codes "Primary")
get_partition_type_string tr type_logical = tr (codes "Logical")
get_partition_type_string tr type_extended = tr (codes "Extended")
get_partition_type_string tr type_unallocated = tr (codes "Unallocated")
get_partition_type_string tr type_unpartitioned = tr (codes "Unpartitioned")

module _ (d : Doubles) where
  -- `clone_as_plain`, of a partition with this subclass part.
  unfoldable pub clone_as_plain : LuksPart → Partition → Partition
  clone_as_plain l p =
      let e : Attributes = l.encrypted in
      let a : Attributes = record (p.attributes) {
        fstype = e.fstype;
        uuid = e.uuid;
        busy = e.busy;
        fs_block_size = e.fs_block_size;
      } in
      let fs_size = l.header_size +ℤ e.sectors_used +ℤ e.sectors_unused in
      let b = set_sector_usage d fs_size e.sectors_unused a in
      let c = add_mountpoints e.mountpoints (clear_mountpoints b) in
      let c' =
        if e.have_filesystem_label then set_filesystem_label (get_filesystem_label e) c else c in
      record {
        attributes = append_messages e.messages (record c' { messages = [] });
        luks = none;
        logical_vector = p.logical_vector;
      }

  -- The outer partition of `PartitionLUKS::resize`: LUKS itself is always used completely.
  unfoldable pub resize_outer : Attributes → Attributes → Attributes
  resize_outer new_size a =
      let b = resize_attributes d new_size a in set_sector_usage d (get_sector_length b) (pos 0) b

  -- The rest of it: the mapping and its file system fill what the header leaves.
  unfoldable pub resize_mapping : ℤ → LuksPart → LuksPart
  resize_mapping len l =
      let mapping_size = len -ℤ l.header_size in
      let fs_unused = mapping_size -ℤ l.encrypted.sectors_used in
      record l {
        encrypted =
            set_sector_usage d mapping_size fs_unused
              (record (l.encrypted) { sector_end = mapping_size -ℤ pos 1 });
      }

  -- The virtual `resize`.
  unfoldable pub resize : Attributes → Partition → Partition
  unfolding resize_outer resize_mapping
  resize new_size p = elim p.luks [
    | none ↦ with_attributes (resize_attributes d new_size p.attributes) p
    | some l ↦ record {
      attributes = resize_outer new_size p.attributes;
      luks = some (resize_mapping (get_sector_length (resize_outer new_size p.attributes)) l);
      logical_vector = p.logical_vector;
    }
  ]
