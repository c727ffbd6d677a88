-- ===== src/Device.antt =====
-- src/Device.cc and include/Device.h.
use gparted_android.Prelude.{if◌then◌else◌, Bool, false, List, []}
use gparted_android.Prelude.Int.{ℤ, pos, ltb_ℤ}
use gparted_android.Prelude.Text.{Text, text_eq}
use gparted_android.Partition.{Partition}

pub record Device : Type 0 where
  pub partitions : List Partition
  pub length : ℤ
  pub heads : ℤ
  pub sectors : ℤ
  pub cylinders : ℤ
  pub cylsize : ℤ
  pub model : Text
  pub serial_number : Text
  pub disktype : Text
  pub sector_size : ℤ
  pub max_prims : ℤ
  pub highest_busy : ℤ
  pub readonly : Bool
  pub path : Text
  pub max_partition_name_length : ℤ

-- `Reset`, and so what the constructor makes.
unfoldable pub new_device : Device
new_device = record {
  partitions = [];
  length = pos 0;
  heads = pos 0;
  sectors = pos 0;
  cylinders = pos 0;
  cylsize = pos 0;
  model = [];
  serial_number = [];
  disktype = [];
  sector_size = pos 0;
  max_prims = pos 0;
  highest_busy = pos 0;
  readonly = false;
  path = [];
  max_partition_name_length = pos 0;
}

-- The serial number is not among the members that it copies.
unfoldable pub get_copy_without_partitions : Device → Device
unfolding new_device
get_copy_without_partitions d = record new_device {
  length = d.length;
  heads = d.heads;
  sectors = d.sectors;
  cylinders = d.cylinders;
  cylsize = d.cylsize;
  model = d.model;
  disktype = d.disktype;
  sector_size = d.sector_size;
  max_prims = d.max_prims;
  highest_busy = d.highest_busy;
  readonly = d.readonly;
  path = d.path;
  max_partition_name_length = d.max_partition_name_length;
}

unfoldable pub enable_partition_naming : ℤ → Device → Device
enable_partition_naming max_length d = record d {
  max_partition_name_length = if ltb_ℤ (pos 0) max_length then max_length else pos 0;
}

unfoldable pub partition_naming_supported : Device → Bool
partition_naming_supported d = ltb_ℤ (pos 0) d.max_partition_name_length

-- `operator==`
unfoldable pub same_device : Device → Device → Bool
same_device d e = text_eq d.path e.path
