-- ===== src/Execute.antt =====
-- Applying an operation to the disk with libparted (src/GParted_Core.cc): the order of the steps, the
-- checks before them and the error paths. What a step asks of libparted, of a file system driver or
-- of the copying of blocks is an entry of the history, with the answer that the world gives; the world
-- may look at all that was done before. The texts of the operation details are left out, but for the
-- reports of a programming error, which end a step.
pub mod Disk
pub mod Filesystem
pub mod Partition
pub mod Resize
pub mod Move
pub mod Rollback
pub mod ResizeMove
pub mod Halfway
pub mod Termination
pub mod Create
pub mod Copy
pub mod Apply
pub mod Success
pub mod Progress
use gparted_android.Prelude.{ℕ, Bool, true, false, if◌then◌else◌, List, [], ◌∷◌}
use gparted_android.Prelude.Int.{ℤ}
use gparted_android.Prelude.Text.{Text}
use gparted_android.Partition.{FsType, Attributes}

-- `FS::Support` and `FS`, the members that are used here.
pub data Support : Type 0 where
  unsupported gparted libparted external : Support

pub record Fs : Type 0 where
  pub write_label : Support
  pub write_uuid : Support
  pub create : Support
  pub grow : Support
  pub shrink : Support
  pub move : Support
  pub check : Support
  pub copy : Support
  pub remove : Support
  pub online_grow : Support
  pub online_shrink : Support
  pub online_write_label : Support

-- What is asked of the world. `resize_external` has the new partition and whether to fill it.
pub data Step : Type 0 where
  set_geometry libparted_resize external_move external_copy : Attributes → Attributes → Step
  copy_blocks : Attributes → Attributes → Bool → Step
  resize_external : Attributes → Bool → Step
  check_repair update_dmraid update_bootsector erase_signatures set_type create_external :
      Attributes → Step
  remove_external write_label_external write_uuid_external delete_part name_part open_device
        find_partition :
      Attributes → Step
  exact_geometry : Attributes → Attributes → Step
  create_part : Attributes → ℤ → Step

-- A step that fails may have changed the drive all the same.
pub data Answer : Type 0 where
  succeeds fails fails_after_change : Answer

abbrev pub is_ok : Answer → Bool
is_ok succeeds = true
is_ok _ = false

-- The reports of a step that was called wrongly, and of a destination that is too small.
pub data Report : Type 0 where
  start_changes not_luks not_open_luks closed_luks_shrinks open_luks : Report
  not_smaller not_swap size_changes destination_smaller : Report

-- A copy that fails tells how many bytes it has copied from the one place to the other.
pub data Event : Type 0 where
  did : Step → Answer → Event
  reported : Report → Event
  copied_only : Attributes → Attributes → ℤ → Event

-- The latest event first.
abbrev pub History : Type 0
History = List Event

-- Outside: the drivers of file systems (what they support, whether there is one, whether a resize is
-- disallowed and the smallest size), libparted (the answers, and what it says of a partition), the
-- files of devices, and the copying of blocks.
pub record World : Type 0 where
  pub get_fs : FsType → Fs
  pub has_object : FsType → Bool
  pub resize_disallowed : Attributes → Bool
  pub min_size : Attributes → ℤ
  pub answer : History → Step → Answer
  pub geometry_set : History → Attributes → ℤ × ℤ
  pub path_of : History → Attributes → Text
  pub path_exists : History → Text → Bool
  pub number_of : History → Attributes → ℤ
  pub bytes_done : History → ℤ

abbrev pub Run : Type 0 → Type 0
Run A = History → A × History

infixl 5 ◌>>=◌ ◌&&&◌
abbrev pub pure : {A : Type 0} → A → Run A
pure a h = (a, h)

abbrev pub ◌>>=◌ : {A B : Type 0} → Run A → (A → Run B) → Run B
◌>>=◌ m f h = let (a, h') = m h in f a h'

-- `&&` of calls: the second one is made only if the first returns true.
abbrev pub when : Bool → Run Bool → Run Bool
when true k = k
when false k = pure false

abbrev pub ◌&&&◌ : Run Bool → Run Bool → Run Bool
m &&& k = m >>= λ b. when b k

-- A branch on a condition of the source.
abbrev pub branch : {A : Type 0} → Bool → Run A → Run A → Run A
branch true k l = k
branch false k l = l

abbrev pub reject : Report → Run Bool
reject r h = (false, reported r ∷ h)

unfoldable pub perform : World → Step → Run Bool
perform w s h = (is_ok (w.answer h s), did s (w.answer h s) ∷ h)
