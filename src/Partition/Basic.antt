-- ===== src/Partition/Basic.antt =====
-- The operations of src/Partition.cc that are not about usage. Those that the subclass inherits
-- unchanged act on `Attributes`, which the encrypted file system of a LUKS partition has too.
use gparted_android.Prelude.{
  ℕ, ◌-◌, ◌%◌, ◌^◌, if◌then◌else◌, Bool, true, false, ◌&&◌, ◌||◌, Option, none, some, [], ltb,
  length,
}
use gparted_android.Prelude.Int.{ℤ, pos, negsuc, ◌+ℤ◌, ◌-ℤ◌, ◌*ℤ◌, ◌/ℤ◌, ltb_ℤ, leb_ℤ, eq_ℤ}
use gparted_android.Prelude.Text.{Text, text_eq, rfind, replace}
use gparted_android.Utils.{Gettext, get_filesystem_string, num_to_str}
use gparted_android.Partition.{
  PartitionType, type_unallocated, type_unpartitioned, type_is, stat_real, align_strict, FsType,
  fs_unallocated, Attributes, none_left, Partition, with_attributes,
}

-- `Reset`. The device path and the text of the label stay.
unfoldable pub reset_attributes : Attributes → Attributes
reset_attributes a = record {
  device_path = a.device_path;
  partition_number = negsuc 0;
  type = type_unallocated;
  status = stat_real;
  alignment = align_strict;
  fstype = fs_unallocated;
  uuid = [];
  name = [];
  sector_start = negsuc 0;
  sector_end = negsuc 0;
  sectors_used = negsuc 0;
  sectors_unused = negsuc 0;
  sectors_unallocated = pos 0;
  significant_threshold = pos 1;
  inside_extended = false;
  busy = false;
  fs_readonly = false;
  strict_start = false;
  free_space_before = negsuc 0;
  sector_size = pos 0;
  fs_block_size = negsuc 0;
  path = [];
  flags = [];
  mountpoints = [];
  have_filesystem_label = false;
  filesystem_label = a.filesystem_label;
  messages = [];
}

unfoldable pub reset : Partition → Partition
unfolding reset_attributes
reset p = record {
  attributes = reset_attributes p.attributes;
  luks = p.luks;
  logical_vector = none_left;
}

-- `Partition::Partition`: the members that `Reset` leaves alone are empty texts.
unfoldable pub new_attributes : Attributes
new_attributes = record {
  device_path = [];
  partition_number = negsuc 0;
  type = type_unallocated;
  status = stat_real;
  alignment = align_strict;
  fstype = fs_unallocated;
  uuid = [];
  name = [];
  sector_start = negsuc 0;
  sector_end = negsuc 0;
  sectors_used = negsuc 0;
  sectors_unused = negsuc 0;
  sectors_unallocated = pos 0;
  significant_threshold = pos 1;
  inside_extended = false;
  busy = false;
  fs_readonly = false;
  strict_start = false;
  free_space_before = negsuc 0;
  sector_size = pos 0;
  fs_block_size = negsuc 0;
  path = [];
  flags = [];
  mountpoints = [];
  have_filesystem_label = false;
  filesystem_label = [];
  messages = [];
}

unfoldable pub new_partition : Partition
unfolding new_attributes
new_partition = record { attributes = new_attributes; luks = none; logical_vector = none_left }

-- `Set`
unfoldable pub set_attributes :
    Text → Text → ℤ → PartitionType → FsType → ℤ → ℤ → ℤ → Bool → Bool → Attributes → Attributes
set_attributes device_path partition number type fstype start end size inside busy a = record a {
  device_path = device_path;
  path = partition;
  partition_number = number;
  type = type;
  fstype = fstype;
  sector_start = start;
  sector_end = end;
  sector_size = size;
  inside_extended = inside;
  busy = busy;
}

module _ (tr : Gettext) where
  -- `Set_Unallocated`
  unfoldable pub set_unallocated : Text → ℤ → ℤ → ℤ → Bool → Partition → Partition
  unfolding reset set_attributes
  set_unallocated device_path start end size inside p =
      let r : Partition = reset p in
      with_attributes
        (record (set_attributes device_path (get_filesystem_string tr fs_unallocated) (negsuc 0)
          type_unallocated fs_unallocated start end size inside false r.attributes) {
            status = stat_real;
          })
        r

  abbrev is_fs_unallocated : FsType → Bool
  is_fs_unallocated fs_unallocated = true
  is_fs_unallocated _ = false

  -- `set_unpartitioned`
  unfoldable pub set_unpartitioned_attributes :
      Text → Text → FsType → ℤ → ℤ → Bool → Attributes → Attributes
  unfolding reset_attributes set_attributes
  set_unpartitioned_attributes device_path partition_path fstype len size busy a =
      set_attributes device_path
        (if is_fs_unallocated fstype
          then get_filesystem_string tr fs_unallocated
          else partition_path)
        (pos 1) type_unpartitioned fstype (pos 0) (len -ℤ pos 1) size false busy
        (reset_attributes a)

  unfoldable pub set_unpartitioned : Text → Text → FsType → ℤ → ℤ → Bool → Partition → Partition
  unfolding set_unpartitioned_attributes
  set_unpartitioned device_path partition_path fstype len size busy p = record {
    attributes =
        set_unpartitioned_attributes device_path partition_path fstype len size busy p.attributes;
    luks = p.luks;
    logical_vector = none_left;
  }

-- `npos` stored in an `unsigned int`, or the index found, which is stored in it too.
abbrev index_of : Option ℕ → ℕ
index_of none = (2 ^ 64 - 1) % 2 ^ 32
index_of (some i) = i % 2 ^ 32

-- `Update_Number`
unfoldable pub update_number : ℤ → Attributes → Attributes
update_number new_number a =
    let old = num_to_str a.partition_number in
    let index = index_of (rfind a.path old) in
    record a {
      path =
          if ltb index (length a.path)
          then replace a.path index (length old) (num_to_str new_number)
          else a.path;
      partition_number = new_number;
    }

unfoldable pub get_sector_length : Attributes → ℤ
get_sector_length a =
    if leb_ℤ (pos 0) a.sector_start && leb_ℤ (pos 0) a.sector_end
    then a.sector_end -ℤ a.sector_start +ℤ pos 1
    else negsuc 0

unfoldable pub get_byte_length : Attributes → ℤ
unfolding get_sector_length
get_byte_length a =
    if leb_ℤ (pos 0) (get_sector_length a) then get_sector_length a *ℤ a.sector_size else negsuc 0

unfoldable pub get_sector : Attributes → ℤ
get_sector a = (a.sector_start +ℤ a.sector_end) /ℤ pos 2

-- `operator==`
unfoldable pub same_partition : Partition → Partition → Bool
same_partition p q =
    text_eq p.device_path q.device_path
    && (eq_ℤ p.partition_number q.partition_number
        && (eq_ℤ p.sector_start q.sector_start && type_is p.type q.type))

unfoldable pub test_overlap : Attributes → Attributes → Bool
test_overlap a b =
    (leb_ℤ a.sector_start b.sector_start && leb_ℤ b.sector_start a.sector_end)
    || ((leb_ℤ a.sector_start b.sector_end && leb_ℤ b.sector_end a.sector_end)
        || (ltb_ℤ b.sector_start a.sector_start && ltb_ℤ a.sector_end b.sector_end))
