-- ===== src/Utils.antt =====
-- src/Utils.cc: the names of file systems, decimal numbers and rounding to a multiple.
use gparted_android.Prelude.{ℕ, zero, suc, ◌+◌, ◌/◌, ◌%◌, if◌then◌else◌, Bool, [], ◌∷◌, ◌++◌, ◌==◌}
use gparted_android.Prelude.Int.{ℤ, pos, negsuc, ◌+ℤ◌, ◌-ℤ◌, ◌*ℤ◌, ◌/ℤ◌}
use gparted_android.Prelude.Text.{Text, codes}
use gparted_android.Partition.{
  FsType, fs_unsupported, fs_extended, fs_bcachefs, fs_btrfs, fs_exfat, fs_ext2, fs_ext3, fs_ext4,
  fs_f2fs, fs_fat16, fs_fat32, fs_hfs, fs_hfsplus, fs_jfs, fs_linux_swap, fs_luks, fs_lvm2_pv,
  fs_minix, fs_nilfs2, fs_ntfs, fs_reiser4, fs_reiserfs, fs_udf, fs_xfs, fs_apfs, fs_ataraid,
  fs_bcache, fs_bitlocker, fs_grub2_core_img, fs_iso9660, fs_jbd, fs_linux_swraid,
  fs_linux_swsuspend, fs_refs, fs_ufs, fs_zfs, fs_erofs, fs_unallocated, fs_unknown, fs_unformatted,
  fs_other, fs_cleared, fs_used, fs_unused,
}

-- `gettext`, which translates a message.
abbrev pub Gettext : Type 0
Gettext = Text → Text

-- The decimal digits of a number, in front of `out`; the fuel is above the number of digits.
digits : ℕ → ℕ → Text → Text
digits zero n out = out
digits (suc fuel) n out =
    let rest = digits fuel (n / 10) ((b'0' + n % 10) ∷ out) in
    if n / 10 == 0 then (b'0' + n % 10) ∷ out else rest

unfoldable pub num_to_str : ℤ → Text
unfolding digits
num_to_str (pos n) = digits (suc n) n []
num_to_str (negsuc n) = b'-' ∷ digits (suc (suc n)) (suc n) []

unfoldable pub floor_size : ℤ → ℤ → ℤ
floor_size value rounding_size = value /ℤ rounding_size *ℤ rounding_size

unfoldable pub ceil_size : ℤ → ℤ → ℤ
ceil_size value rounding_size = (value +ℤ rounding_size -ℤ pos 1) /ℤ rounding_size *ℤ rounding_size

module _ (tr : Gettext) where
  unfoldable pub get_filesystem_string : FsType → Text
  get_filesystem_string fs_unsupported = codes "unsupported"
  get_filesystem_string fs_extended = codes "extended"
  get_filesystem_string fs_bcachefs = codes "bcachefs"
  get_filesystem_string fs_btrfs = codes "btrfs"
  get_filesystem_string fs_exfat = codes "exfat"
  get_filesystem_string fs_ext2 = codes "ext2"
  get_filesystem_string fs_ext3 = codes "ext3"
  get_filesystem_string fs_ext4 = codes "ext4"
  get_filesystem_string fs_f2fs = codes "f2fs"
  get_filesystem_string fs_fat16 = codes "fat16"
  get_filesystem_string fs_fat32 = codes "fat32"
  get_filesystem_string fs_hfs = codes "hfs"
  get_filesystem_string fs_hfsplus = codes "hfs+"
  get_filesystem_string fs_jfs = codes "jfs"
  get_filesystem_string fs_linux_swap = codes "linux-swap"
  get_filesystem_string fs_luks = codes "luks"
  get_filesystem_string fs_lvm2_pv = codes "lvm2 pv"
  get_filesystem_string fs_minix = codes "minix"
  get_filesystem_string fs_nilfs2 = codes "nilfs2"
  get_filesystem_string fs_ntfs = codes "ntfs"
  get_filesystem_string fs_reiser4 = codes "reiser4"
  get_filesystem_string fs_reiserfs = codes "reiserfs"
  get_filesystem_string fs_udf = codes "udf"
  get_filesystem_string fs_xfs = codes "xfs"
  get_filesystem_string fs_apfs = codes "apfs"
  get_filesystem_string fs_ataraid = codes "ataraid"
  get_filesystem_string fs_bcache = codes "bcache"
  get_filesystem_string fs_bitlocker = codes "bitlocker"
  get_filesystem_string fs_grub2_core_img = codes "grub2 core.img"
  get_filesystem_string fs_iso9660 = codes "iso9660"
  get_filesystem_string fs_jbd = codes "jbd"
  get_filesystem_string fs_linux_swraid = codes "linux-raid"
  get_filesystem_string fs_linux_swsuspend = codes "linux-suspend"
  get_filesystem_string fs_refs = codes "refs"
  get_filesystem_string fs_ufs = codes "ufs"
  get_filesystem_string fs_zfs = codes "zfs"
  get_filesystem_string fs_erofs = codes "erofs"
  get_filesystem_string fs_unallocated = tr (codes "unallocated")
  get_filesystem_string fs_unknown = tr (codes "unknown")
  get_filesystem_string fs_unformatted = tr (codes "unformatted")
  get_filesystem_string fs_other = tr (codes "other")
  get_filesystem_string fs_cleared = tr (codes "cleared")
  get_filesystem_string fs_used = tr (codes "used")
  get_filesystem_string fs_unused = tr (codes "unused")

  unfoldable pub get_encrypted_string : Text
  get_encrypted_string = codes "[" ++ tr (codes "Encrypted") ++ codes "]"

  -- The overload that takes `encrypted`.
  unfoldable pub get_encrypted_filesystem_string : Bool → FsType → Text
  unfolding get_filesystem_string get_encrypted_string
  get_encrypted_filesystem_string encrypted fstype =
      if encrypted
      then get_encrypted_string ++ codes " " ++ get_filesystem_string fstype
      else get_filesystem_string fstype
