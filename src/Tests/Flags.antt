-- ===== src/Tests/Flags.antt =====
-- Runs of the flags of a partition.
use gparted_android.Prelude.{◌≡◌, ◌||◌}
use gparted_android.Prelude.Int.{pos}
use gparted_android.Prelude.Text.{codes, text_eq}
use gparted_android.Partition.Members.{is_flag_set, set_flag, set_flag_lem}
use gparted_android.Partition.Flags.{compose_partition_flags, composed, compose_partition_flags_lem}
use gparted_android.Partition.{Attributes}
use gparted_android.Tests.{ext4_attributes}

abbrev a : Attributes
a = ext4_attributes (pos 4096) (pos 8191)

set_flag_lem_example :
    (is_flag_set (codes "lba") (set_flag (codes "boot") a)
      ≡ (text_eq (codes "boot") (codes "lba") || is_flag_set (codes "lba") a))
    × (set_flag (codes "boot") (set_flag (codes "boot") a) ≡ set_flag (codes "boot") a)
set_flag_lem_example = set_flag_lem (codes "boot") (codes "lba") a

compose_partition_flags_lem_example :
    (is_flag_set (codes "lba") (compose_partition_flags (codes "msdos") a)
      ≡ composed (codes "msdos") a (codes "lba"))
    × (compose_partition_flags (codes "msdos") (compose_partition_flags (codes "msdos") a)
        ≡ compose_partition_flags (codes "msdos") a)
compose_partition_flags_lem_example = compose_partition_flags_lem (codes "msdos") a (codes "lba")
