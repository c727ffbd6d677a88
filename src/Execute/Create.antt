-- ===== src/Execute/Create.antt =====
-- Creating, formatting and finding a partition (src/GParted_Core.cc).
use gparted_android.Prelude.{
  Bool, true, false, ◌&&◌, ◌||◌, not, if◌then◌else◌, Option, none, some, [],
}
use gparted_android.Prelude.Int.{ℤ, pos, ◌/ℤ◌, ltb_ℤ}
use gparted_android.Prelude.Text.{text_eq}
use gparted_android.Partition.{
  FsType, Attributes, fs_xfs, fs_cleared, fs_unformatted, type_is, type_primary, type_logical,
  type_extended, type_unpartitioned,
}
use gparted_android.Execute.{
  World, Run, pure, ◌>>=◌, ◌&&&◌, branch, reject, perform, create_part, update_dmraid, name_part,
  set_type, erase_signatures, open_device, find_partition, open_luks,
}
use gparted_android.Execute.Filesystem.{is_open_luks, create_filesystem}

abbrev pub is_xfs : FsType → Bool
is_xfs fs_xfs = true
is_xfs _ = false

abbrev pub is_cleared : FsType → Bool
is_cleared fs_cleared = true
is_cleared _ = false

abbrev pub is_unformatted : FsType → Bool
is_unformatted fs_unformatted = true
is_unformatted _ = false

-- The smallest size that libparted is asked for; 0 is none.
abbrev pub constraint_min_size : Attributes → ℤ → ℤ
constraint_min_size p min_size =
    if ltb_ℤ (pos 0) min_size && not (is_xfs p.fstype) then min_size else pos 0

-- The types of partition that libparted knows.
abbrev pub is_calibrated : Attributes → Bool
is_calibrated p =
    type_is p.type type_primary
    || type_is p.type type_logical
    || type_is p.type type_extended
    || type_is p.type type_unpartitioned

module _ (w : World) where
  -- What libparted says of the partition that it has added.
  abbrev pub added : Attributes → Run Attributes
  added p h =
      let (start, end) = w.geometry_set h p in
      (
        record p {
          path = w.path_of h p;
          partition_number = w.number_of h p;
          sector_start = start;
          sector_end = end;
        },
        h,
      )

  -- The new partition, with its path, number and boundaries; `none` if it was not created.
  unfoldable pub create_partition : Attributes → ℤ → Run (Option Attributes)
  create_partition p min_size =
      let unnumbered : Attributes = record p { partition_number = pos 0 } in
      perform w (create_part unnumbered (constraint_min_size p min_size)) >>= λ committed.
      branch committed
        (added unnumbered >>= λ q.
          branch (ltb_ℤ (pos 0) q.partition_number)
            (perform w (update_dmraid q) >>= λ entered. branch entered (pure (some q)) (pure none))
            (pure none))
        (pure none)

  -- The file system of a partition that has been created.
  abbrev pub fill_created : Attributes → Run Bool
  fill_created p = branch (type_is p.type type_extended) (perform w (set_type p)) (
      branch (is_unformatted p.fstype) (pure true) (
        branch (is_cleared p.fstype) (perform w (erase_signatures p))
          (perform w (erase_signatures p) &&& perform w (set_type p) &&& create_filesystem w p)))

  abbrev pub name_and_fill : Option Attributes → Run Bool
  name_and_fill none = pure false
  name_and_fill (some p) =
      branch (not (text_eq p.name [])) (perform w (name_part p) &&& fill_created p) (fill_created p)

  unfoldable pub create : Attributes → Run Bool
  create p =
      create_partition p
        (if type_is p.type type_extended then pos 0 else w.min_size p /ℤ p.sector_size)
      >>= name_and_fill

  unfoldable pub format : Attributes → Run Bool
  format p = branch (is_open_luks p) (reject open_luks) (
      branch (is_cleared p.fstype) (perform w (erase_signatures p) &&& perform w (set_type p))
        (perform w (erase_signatures p) &&& perform w (set_type p) &&& create_filesystem w p))

  -- A path that is not that of a device file is replaced.
  abbrev pub found : Attributes → Run Attributes
  found p h =
      let (start, end) = w.geometry_set h p in
      (
        record p {
          path = if w.path_exists h p.path then p.path else w.path_of h p;
          sector_start = start;
          sector_end = end;
        },
        h,
      )

  -- The partition with its real path and boundaries; `none` if it was not found.
  unfoldable pub calibrate_partition : Attributes → Run (Option Attributes)
  calibrate_partition p =
      branch (is_calibrated p)
        (perform w (open_device p) >>= λ opened.
          branch opened
            (branch (type_is p.type type_unpartitioned) (pure (some p)) (
              perform w (find_partition p) >>= λ is_there.
              branch is_there (found p >>= λ q. pure (some q)) (pure none)))
            (pure none))
        (pure (some p))
