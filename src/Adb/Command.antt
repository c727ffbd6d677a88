-- ===== src/Adb/Command.antt =====
-- src/adb/PartedCommand.cc: the commands of parted.
use gparted_android.Prelude.{Bool, ◌||◌, not, if◌then◌else◌, [], ◌∷◌, ◌++◌}
use gparted_android.Prelude.Int.{ℤ}
use gparted_android.Prelude.Text.{Text, codes, is_prefix}
use gparted_android.Utils.{num_to_str}
use gparted_android.Adb.{Phone, Run, pure, ◌>>=◌, shell_command}

-- `output.find(s) != npos`
unfoldable pub contains : Text → Text → Bool
contains s [] = is_prefix s []
contains s (b ∷ t) = is_prefix s (b ∷ t) || contains s t

-- A number of sectors in the syntax of parted.
abbrev pub in_sectors : ℤ → Text
in_sectors n = num_to_str n ++ codes "s"

abbrev pub print_command : Text → Text
print_command device_path = codes "parted -s " ++ device_path ++ codes " unit s print"

abbrev pub mklabel_command : Text → Text → Text
mklabel_command device_path label_type =
    codes "parted -s " ++ device_path ++ codes " mklabel " ++ label_type

abbrev pub mkpart_command : Text → Text → Text → ℤ → ℤ → Text
mkpart_command device_path part_type fs_type start end =
    codes "parted -s "
    ++ device_path
    ++ codes " mkpart "
    ++ part_type
    ++ codes " "
    ++ fs_type
    ++ codes " "
    ++ in_sectors start
    ++ codes " "
    ++ in_sectors end

abbrev pub rm_command : Text → ℤ → Text
rm_command device_path partition_number =
    codes "parted -s " ++ device_path ++ codes " rm " ++ num_to_str partition_number

abbrev pub resizepart_command : Text → ℤ → ℤ → Text
resizepart_command device_path partition_number end =
    codes "parted -s "
    ++ device_path
    ++ codes " resizepart "
    ++ num_to_str partition_number
    ++ codes " "
    ++ in_sectors end

abbrev pub set_flag_command : Text → ℤ → Text → Bool → Text
set_flag_command device_path partition_number flag state =
    codes "parted -s "
    ++ device_path
    ++ codes " set "
    ++ num_to_str partition_number
    ++ codes " "
    ++ flag
    ++ codes " "
    ++ (if state then codes "on" else codes "off")

abbrev pub name_command : Text → ℤ → Text → Text
name_command device_path partition_number name =
    codes "parted -s "
    ++ device_path
    ++ codes " name "
    ++ num_to_str partition_number
    ++ codes " "
    ++ name

abbrev pub move_command : Text → ℤ → ℤ → ℤ → Text
move_command device_path partition_number start end =
    codes "parted -s "
    ++ device_path
    ++ codes " move "
    ++ num_to_str partition_number
    ++ codes " "
    ++ in_sectors start
    ++ codes " "
    ++ in_sectors end

module _ (w : Phone) where
  -- A command fails if its output has an error in it.
  unfoldable pub parted : Text → Run Bool
  parted command =
      shell_command w command >>= λ output. pure (not (contains (codes "Error:") output))

  abbrev pub print_device : Text → Run Text
  print_device device_path = shell_command w (print_command device_path)

  abbrev pub mklabel : Text → Text → Run Bool
  mklabel device_path label_type = parted (mklabel_command device_path label_type)

  abbrev pub mkpart : Text → Text → Text → ℤ → ℤ → Run Bool
  mkpart device_path part_type fs_type start end =
      parted (mkpart_command device_path part_type fs_type start end)

  abbrev pub rm : Text → ℤ → Run Bool
  rm device_path partition_number = parted (rm_command device_path partition_number)

  abbrev pub resizepart : Text → ℤ → ℤ → Run Bool
  resizepart device_path partition_number end =
      parted (resizepart_command device_path partition_number end)

  abbrev pub set_flag : Text → ℤ → Text → Bool → Run Bool
  set_flag device_path partition_number flag state =
      parted (set_flag_command device_path partition_number flag state)

  abbrev pub name_partition : Text → ℤ → Text → Run Bool
  name_partition device_path partition_number name =
      parted (name_command device_path partition_number name)

  abbrev pub move : Text → ℤ → ℤ → ℤ → Run Bool
  move device_path partition_number start end =
      parted (move_command device_path partition_number start end)
