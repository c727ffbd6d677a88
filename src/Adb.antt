-- ===== src/Adb.antt =====
-- Carrying out operations on an Android device: commands of parted over adb, and the drivers of file
-- systems (src/GParted_Core_Adb.cc, src/adb/PartedCommand.cc). The latest event of a history comes first.
pub mod Command
pub mod Calibrate
pub mod Apply
pub mod Laws
use gparted_android.Prelude.{Bool, true, false, List, ◌∷◌}
use gparted_android.Prelude.Text.{Text}
use gparted_android.Partition.{FsType, Attributes}

-- What is asked of the driver of a file system.
pub data DriverCall : Type 0 where
  create write_label write_uuid : Attributes → DriverCall
  copy : Attributes → Attributes → DriverCall

-- A command with its output, or a call of a driver with its result.
pub data Event : Type 0 where
  shell : Text → Text → Event
  driver : DriverCall → Bool → Event

abbrev pub History : Type 0
History = List Event

-- Outside: the output of a command on the device, which drivers there are, and what their calls return.
pub record Phone : Type 0 where
  pub output : History → Text → Text
  pub has_object : FsType → Bool
  pub does : History → DriverCall → Bool

abbrev pub Run : Type 0 → Type 0
Run A = History → A × History

infixl 5 ◌>>=◌ ◌&&&◌
abbrev pub pure : {A : Type 0} → A → Run A
pure a h = (a, h)

abbrev pub ◌>>=◌ : {A B : Type 0} → Run A → (A → Run B) → Run B
◌>>=◌ m f h = let (a, h') = m h in f a h'

abbrev pub branch : {A : Type 0} → Bool → Run A → Run A → Run A
branch true k l = k
branch false k l = l

-- `&&` of calls: the second one is made only if the first returns true.
abbrev pub ◌&&&◌ : Run Bool → Run Bool → Run Bool
m &&& k = m >>= λ b. branch b k (pure false)

-- `AdbClient::shell_command`
abbrev pub shell_command : Phone → Text → Run Text
shell_command w command h = (w.output h command, shell command (w.output h command) ∷ h)

abbrev pub call : Phone → DriverCall → Run Bool
call w c h = (w.does h c, driver c (w.does h c) ∷ h)
