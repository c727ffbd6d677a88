-- ===== src/Tests/Execute.antt =====
-- Runs of operations on the disk, with an ext4 partition and a drive that does what it is asked.
use gparted_android.Prelude.{
  some, none, ◌≡◌, refl, true, false, if◌then◌else◌, Bool-cases, inl, inr, arith, [], ◌∷◌,
}
use gparted_android.Prelude.Int.{ℤ, pos, ◌+ℤ◌, ◌-ℤ◌, ◌/ℤ◌, ◌≤ℤ◌, leb_ℤ, leb_ℤ→le, parts_of_eq}
use gparted_android.Partition.{Attributes, Partition, align_strict}
use gparted_android.Operation.{deletion}
use gparted_android.Execute.{
  World, Fs, external, gparted, Step, copy_blocks, Answer, succeeds, fails, History, did, perform,
}
use gparted_android.Execute.Filesystem.{remove_filesystem}
use gparted_android.Execute.Create.{calibrate_partition}
use gparted_android.Execute.Resize.{resize_plain}
use gparted_android.Execute.Move.{move, overwritten, copied}
use gparted_android.Execute.ResizeMove.{resize_move}
use gparted_android.Execute.Apply.{apply_operation_to_disk}
use gparted_android.Execute.Rollback.{overwritten-copied, has_sector}
use gparted_android.Execute.Progress.{IsReady}
use gparted_android.Execute.Progress.ResizeMove.{resize_move-Succeeds}
use gparted_android.Execute.Termination.{resize_move-Returns}
use gparted_android.Execute.Disk.{Disk, AlwaysInside, Ends, Any, disk_after}
use gparted_android.Execute.Disk.Rules.{IsPlaced}
use gparted_android.Execute.Disk.Resize.{Placed, resize_plain-Placed}
use gparted_android.Execute.Disk.Copying.{CopiesBack, zero_over}
use gparted_android.Execute.Halfway.{length_positive}
use gparted_android.Partition.Basic.{get_sector_length}
use gparted_android.Execute.Disk.Move.{move-Placed}
use gparted_android.Execute.Disk.ResizeMove.{Finishes, resize_move-Placed}
use gparted_android.Execute.Success.{Clean, is_some}
use gparted_android.Execute.Success.Apply.{apply_operation_to_disk-Clean}
use gparted_android.Tests.{plain, ext4_attributes, sda, sda1}

abbrev ext4_support : Fs
ext4_support = record {
  write_label = external;
  write_uuid = external;
  create = external;
  grow = external;
  shrink = external;
  move = gparted;
  check = external;
  copy = gparted;
  remove = external;
  online_grow = external;
  online_shrink = external;
  online_write_label = external;
}

abbrev obliging : World
obliging = record {
  get_fs = λ t. ext4_support;
  has_object = λ t. true;
  resize_disallowed = λ p. false;
  min_size = λ p. pos 0;
  answer = λ h s. succeeds;
  geometry_set = λ h p. (p.sector_start, p.sector_end);
  path_of = λ h p. p.path;
  path_exists = λ h t. true;
  number_of = λ h p. pos 1;
  bytes_done = λ h. pos 0;
}

nothing_copied : (p : Attributes) → IsPlaced p → pos 0 /ℤ p.sector_size ≤ℤ get_sector_length p
nothing_copied p h =
    let l = length_positive p h in
    let z = parts_of_eq (zero_over p.sector_size) in omega (arith, l, z)

obliging-CopiesBack : CopiesBack obliging
obliging-CopiesBack = record {
  not_negative = λ h. omega arith;
  at_most = λ p q a h k. nothing_copied p k;
  succeeds_back = λ p q h. refl;
}

-- Moving blocks fails after a mebibyte, if there is so much; copying back succeeds.
abbrev a_mebibyte : Attributes → ℤ
a_mebibyte p =
    if leb_ℤ (pos 1048576 /ℤ p.sector_size) (get_sector_length p) then pos 1048576 else pos 0

abbrev copied_of : History → ℤ
copied_of (did (copy_blocks p q true) a ∷ h) = a_mebibyte p
copied_of _ = pos 0

abbrev fails_to_move : Step → Answer
fails_to_move (copy_blocks p q true) = fails
fails_to_move _ = succeeds

abbrev faulty : World
faulty = record obliging { answer = λ h s. fails_to_move s; bytes_done = copied_of }

mebibyte_not_negative : (p : Attributes) → pos 0 ≤ℤ a_mebibyte p
mebibyte_not_negative p =
    elim (Bool-cases (leb_ℤ (pos 1048576 /ℤ p.sector_size) (get_sector_length p))) [
      | inl h ↦ rw (h) (omega arith)
      | inr h ↦ rw (h) (omega arith)
    ]

mebibyte_fits : (p : Attributes) → IsPlaced p → a_mebibyte p /ℤ p.sector_size ≤ℤ get_sector_length p
mebibyte_fits p k = elim (Bool-cases (leb_ℤ (pos 1048576 /ℤ p.sector_size) (get_sector_length p))) [
  | inl h ↦ rw (h) (leb_ℤ→le (pos 1048576 /ℤ p.sector_size) (get_sector_length p) h)
  | inr h ↦ rw (h) (nothing_copied p k)
]

copied_not_negative : (h : History) → pos 0 ≤ℤ copied_of h
copied_not_negative [] = omega arith
copied_not_negative (did (copy_blocks p q true) a ∷ h) = mebibyte_not_negative p
copied_not_negative (_ ∷ h) = omega arith

faulty-CopiesBack : CopiesBack faulty
faulty-CopiesBack = record {
  not_negative = copied_not_negative;
  at_most = λ p q a h k. mebibyte_fits p k;
  succeeds_back = λ p q h. refl;
}

abbrev strict : ℤ → ℤ → Attributes
strict start end = record (ext4_attributes start end) { alignment = align_strict }

abbrev drive : Disk
drive = record {
  start = pos 4096;
  end = pos 8191;
  fs_start = pos 4096;
  fs_end = pos 8191;
  torn = none;
}

drive-Placed : Placed (ext4_attributes (pos 4096) (pos 8191)) drive
drive-Placed = record { start = refl; end = refl; fs = (refl, ground arith); whole = refl }

is_placed : (p : Attributes) → pos 0 ≤ℤ p.sector_start → p.sector_start ≤ℤ p.sector_end → IsPlaced p
is_placed p s e = record { start = s; order = e }

sda1-IsPlaced : IsPlaced (ext4_attributes (pos 4096) (pos 8191))
sda1-IsPlaced = is_placed (ext4_attributes (pos 4096) (pos 8191)) (ground arith) (ground arith)

-- Half as long.
resize_plain-Placed_example :
    AlwaysInside drive
      (resize_plain obliging
        (ext4_attributes (pos 4096) (pos 8191))
        (strict (pos 4096) (pos 6143))
        []).1
    × Ends
        (Placed (strict (pos 4096) (pos 6143)))
        Any
        (resize_plain obliging
          (ext4_attributes (pos 4096) (pos 8191))
          (strict (pos 4096) (pos 6143))
          []).0
        (disk_after drive
          (resize_plain obliging
            (ext4_attributes (pos 4096) (pos 8191))
            (strict (pos 4096) (pos 6143))
            []).1)
resize_plain-Placed_example =
    resize_plain-Placed obliging (ext4_attributes (pos 4096) (pos 8191))
      (strict (pos 4096) (pos 6143)) drive refl refl sda1-IsPlaced
      (is_placed (strict (pos 4096) (pos 6143)) (ground arith) (ground arith)) refl drive-Placed

-- A kibibyte of sectors to the left, over itself. The copy fails, and is copied back.
move-Placed_example :
    AlwaysInside drive
      (move faulty (ext4_attributes (pos 4096) (pos 8191)) (strict (pos 3072) (pos 7167)) []).1
    × Ends
        (Placed (strict (pos 3072) (pos 7167)))
        Any
        (move faulty (ext4_attributes (pos 4096) (pos 8191)) (strict (pos 3072) (pos 7167)) []).0
        (disk_after drive
          (move faulty (ext4_attributes (pos 4096) (pos 8191)) (strict (pos 3072) (pos 7167)) []).1)
move-Placed_example =
    move-Placed faulty (ext4_attributes (pos 4096) (pos 8191)) (strict (pos 3072) (pos 7167)) drive
      faulty-CopiesBack refl refl sda1-IsPlaced
      (is_placed (strict (pos 3072) (pos 7167)) (ground arith) (ground arith)) refl drive-Placed

abbrev grown : Partition
grown = plain (strict (pos 3072) (pos 9215))

grown-IsPlaced : IsPlaced (strict (pos 3072) (pos 9215))
grown-IsPlaced = is_placed (strict (pos 3072) (pos 9215)) (ground arith) (ground arith)

resize_move-Placed_example :
    AlwaysInside drive (resize_move obliging 2 sda1 grown []).1
    × Finishes
        (strict (pos 3072) (pos 9215))
        (resize_move obliging 2 sda1 grown []).0
        (disk_after drive (resize_move obliging 2 sda1 grown []).1)
resize_move-Placed_example =
    resize_move-Placed obliging 0 sda1 grown drive obliging-CopiesBack
      (record {
        placed = sda1-IsPlaced;
        partitioned = refl;
        not_extended = refl;
        no_luks = refl;
        no_swap = refl;
      })
      (record {
        placed = grown-IsPlaced;
        partitioned = refl;
        not_extended = refl;
        no_luks = refl;
        no_swap = refl;
      })
      refl refl drive-Placed

resize_move-Returns_example : is_some (resize_move obliging 2 sda1 grown []).0 ≡ true
resize_move-Returns_example =
    resize_move-Returns obliging 0 sda1 grown [] sda1-IsPlaced grown-IsPlaced refl

apply_operation_to_disk-Clean_example :
    Clean (apply_operation_to_disk obliging 2 (deletion sda sda1) []).1
unfolding apply_operation_to_disk calibrate_partition remove_filesystem perform
apply_operation_to_disk-Clean_example =
    apply_operation_to_disk-Clean obliging 2 (deletion sda sda1) refl

-- 2048 sectors were copied to the left by 1024, so that 1024 have been written over.
overwritten-copied_example :
    (has_sector
        (overwritten (strict (pos 4096) (pos 8191)) (strict (pos 3072) (pos 7167)) (pos 1048576))
        (pos 5000)
      ≡ true)
    × ((copied
            (strict (pos 4096) (pos 8191))
            (strict (pos 3072) (pos 7167))
            (pos 1048576)).sector_start
          -ℤ pos 3072
        ≡ (overwritten
            (strict (pos 4096) (pos 8191))
            (strict (pos 3072) (pos 7167))
            (pos 1048576)).sector_start
          -ℤ pos 4096)
    × ((copied
            (strict (pos 4096) (pos 8191))
            (strict (pos 3072) (pos 7167))
            (pos 1048576)).sector_end
          -ℤ pos 7167
        ≡ (overwritten
            (strict (pos 4096) (pos 8191))
            (strict (pos 3072) (pos 7167))
            (pos 1048576)).sector_end
          -ℤ pos 8191)
unfolding ◌/ℤ◌ ◌-ℤ◌ ◌+ℤ◌
overwritten-copied_example =
    overwritten-copied (strict (pos 4096) (pos 8191)) (strict (pos 3072) (pos 7167)) (pos 1048576)
      (pos 5000) (record { length = refl; sector_size = refl }) (ground arith)

sda1-IsReady : IsReady obliging (ext4_attributes (pos 4096) (pos 8191))
sda1-IsReady = record {
  idle = refl;
  object = refl;
  checks = refl;
  grows = refl;
  shrinks = refl;
  moves = refl;
}

grown-IsReady : IsReady obliging (strict (pos 3072) (pos 9215))
grown-IsReady = record {
  idle = refl;
  object = refl;
  checks = refl;
  grows = refl;
  shrinks = refl;
  moves = refl;
}

resize_move-Succeeds_example : (resize_move obliging 2 sda1 grown []).0 ≡ some true
resize_move-Succeeds_example =
    resize_move-Succeeds obliging 0 sda1 grown [] (λ g s. refl) (λ p. refl)
      (record {
        placed = sda1-IsPlaced;
        partitioned = refl;
        not_extended = refl;
        no_luks = refl;
        no_swap = refl;
      })
      (record {
        placed = grown-IsPlaced;
        partitioned = refl;
        not_extended = refl;
        no_luks = refl;
        no_swap = refl;
      })
      sda1-IsReady grown-IsReady refl
