-- ===== src/Tests.antt =====
-- Small concrete data for the tests: a disk of 20480 sectors with one partition.
pub mod Layout
pub mod Figures
pub mod Flags
pub mod Logicals
pub mod Output
pub mod Passwords
pub mod Queue
pub mod Execute
pub mod Adb
pub mod Blocks
pub mod Details
use gparted_android.Prelude.{Option, none, some, List, [], ◌∷◌, true, false}
use gparted_android.Prelude.Int.{ℤ, pos, negsuc}
use gparted_android.Prelude.Text.{Text, codes}
use gparted_android.Utils.{Gettext}
use gparted_android.Partition.{
  Attributes, Partition, none_left, stat_real, align_cylinder, type_primary, fs_ext4,
}
use gparted_android.Device.{Device}

abbrev pub untranslated : Gettext
untranslated s = s

abbrev pub ext4_attributes : ℤ → ℤ → Attributes
ext4_attributes start end = record {
  device_path = codes "/dev/sda";
  partition_number = pos 1;
  type = type_primary;
  status = stat_real;
  alignment = align_cylinder;
  fstype = fs_ext4;
  uuid = [];
  name = [];
  sector_start = start;
  sector_end = end;
  sectors_used = negsuc 0;
  sectors_unused = negsuc 0;
  sectors_unallocated = pos 0;
  significant_threshold = pos 1;
  inside_extended = false;
  busy = false;
  fs_readonly = false;
  strict_start = false;
  free_space_before = pos 0;
  sector_size = pos 512;
  fs_block_size = negsuc 0;
  path = codes "/dev/sda1";
  flags = [];
  mountpoints = [];
  have_filesystem_label = false;
  filesystem_label = [];
  messages = [];
}

abbrev pub plain : Attributes → Partition
plain a = record { attributes = a; luks = none; logical_vector = none_left }

abbrev pub sda1 : Partition
sda1 = plain (ext4_attributes (pos 4096) (pos 8191))

abbrev pub sda : Device
sda = record {
  partitions = sda1 ∷ [];
  length = pos 20480;
  heads = pos 255;
  sectors = pos 63;
  cylinders = pos 1;
  cylsize = pos 16065;
  model = [];
  serial_number = [];
  disktype = codes "gpt";
  sector_size = pos 512;
  max_prims = pos 128;
  highest_busy = pos 0;
  readonly = false;
  path = codes "/dev/sda";
  max_partition_name_length = pos 36;
}
