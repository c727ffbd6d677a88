-- ===== src/Partition.antt =====
-- include/Partition.h, include/PartitionLUKS.h and the enumerations that they use.
-- `Partition` is a record over `Attributes`, which holds the data members. The subclass
-- `PartitionLUKS` is a partition whose `luks` part is there. Its `encrypted` member is always set up
-- by `set_unpartitioned`, which clears the logicals, so the attributes are all of it.
-- A partition holds a vector of partitions: `Logicals` is that vector as a data type of its own, and
-- `logicals` reads it as a list.
pub mod Basic
pub mod Members
pub mod Flags
pub mod Usage
pub mod UsageLaws
pub mod Luks
pub mod LuksLaws
use gparted_android.Prelude.{ℕ, ◌≡◌, refl, ap, Bool, Option, none, some, List, [], ◌∷◌, ◌==◌}
use gparted_android.Prelude.Int.{ℤ}
use gparted_android.Prelude.Text.{Text}

pub data PartitionType : Type 0 where
  type_primary type_logical type_extended type_unallocated type_unpartitioned : PartitionType

pub data PartitionStatus : Type 0 where
  stat_real stat_new stat_copy : PartitionStatus

pub data PartitionAlignment : Type 0 where
  align_cylinder align_mebibyte align_strict : PartitionAlignment

pub data FsType : Type 0 where
  fs_unsupported fs_unallocated fs_unknown fs_unformatted fs_cleared fs_other : FsType
  fs_extended fs_bcachefs fs_btrfs fs_exfat fs_ext2 fs_ext3 fs_ext4 fs_f2fs : FsType
  fs_fat16 fs_fat32 fs_hfs fs_hfsplus fs_jfs fs_linux_swap fs_luks fs_lvm2_pv : FsType
  fs_minix fs_nilfs2 fs_ntfs fs_reiser4 fs_reiserfs fs_udf fs_xfs fs_apfs : FsType
  fs_ataraid fs_bcache fs_bitlocker fs_grub2_core_img fs_iso9660 fs_jbd : FsType
  fs_linux_swraid fs_linux_swsuspend fs_refs fs_ufs fs_zfs fs_erofs : FsType
  fs_used fs_unused : FsType

-- The value of the enumerator.
abbrev pub type_code : PartitionType → ℕ
type_code type_primary = 0
type_code type_logical = 1
type_code type_extended = 2
type_code type_unallocated = 3
type_code type_unpartitioned = 4

abbrev pub type_is : PartitionType → PartitionType → Bool
type_is a b = type_code a == type_code b

abbrev pub status_code : PartitionStatus → ℕ
status_code stat_real = 0
status_code stat_new = 1
status_code stat_copy = 2

abbrev pub status_is : PartitionStatus → PartitionStatus → Bool
status_is a b = status_code a == status_code b

pub record Attributes : Type 0 where
  pub device_path : Text
  pub partition_number : ℤ
  pub type : PartitionType
  pub status : PartitionStatus
  pub alignment : PartitionAlignment
  pub fstype : FsType
  pub uuid : Text
  pub name : Text
  pub sector_start : ℤ
  pub sector_end : ℤ
  pub sectors_used : ℤ
  pub sectors_unused : ℤ
  pub sectors_unallocated : ℤ
  pub significant_threshold : ℤ
  pub inside_extended : Bool
  pub busy : Bool
  pub fs_readonly : Bool
  pub strict_start : Bool
  pub free_space_before : ℤ
  pub sector_size : ℤ
  pub fs_block_size : ℤ
  pub path : Text
  pub flags : List Text
  pub mountpoints : List Text
  pub have_filesystem_label : Bool
  pub filesystem_label : Text
  pub messages : List Text

-- What `PartitionLUKS` adds.
pub record LuksPart : Type 0 where
  pub header_size : ℤ
  pub encrypted : Attributes

-- `PartitionVector logicals`, one constructor field for each part of the first partition.
pub data Logicals : Type 0 where
  none_left : Logicals
  first : Attributes → Option LuksPart → Logicals → Logicals → Logicals

pub record Partition : Type 0 where
  pub attributes : Attributes
  pub open attributes use *
  pub luks : Option LuksPart
  pub logical_vector : Logicals

abbrev pub to_list : Logicals → List Partition
to_list none_left = []
to_list (first a l inner rest) =
    record { attributes = a; luks = l; logical_vector = inner } ∷ to_list rest

abbrev pub of_list : List Partition → Logicals
of_list [] = none_left
of_list (p ∷ ps) = first p.attributes p.luks p.logical_vector (of_list ps)

pub to_list-of_list : (ps : List Partition) → to_list (of_list ps) ≡ ps
to_list-of_list [] = refl
to_list-of_list (p ∷ ps) = ap (◌∷◌ p) (to_list-of_list ps)

-- The logical partitions of an extended partition.
abbrev pub logicals : Partition → List Partition
logicals p = to_list p.logical_vector

abbrev pub with_logicals : List Partition → Partition → Partition
with_logicals ps p = record p { logical_vector = of_list ps }

abbrev pub with_attributes : Attributes → Partition → Partition
with_attributes a p = record p { attributes = a }
