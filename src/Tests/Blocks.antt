-- ===== src/Tests/Blocks.antt =====
-- A drive in memory with sectors of 512 bytes, and copies on it (src/CopyBlocks.cc).
use gparted_android.Prelude.{
  ℕ, ◌≡◌, ◌⊎◌, refl, Bool, true, false, ◌&&◌, Option, some, none, if◌then◌else◌, arith,
}
use gparted_android.Prelude.Int.{ℤ, pos, pos_part, ◌+ℤ◌, ◌-ℤ◌, ltb_ℤ, leb_ℤ, llabs}
use gparted_android.Prelude.Text.{Text, codes, text_eq}
use gparted_android.CopyBlocks.{Ped, Job, User, Copying, copy}
use gparted_android.CopyBlocks.Benchmark.{Range, Search}
use gparted_android.CopyBlocks.Failures.{Patient, copy-blind, copy-Accounts, Cause}

abbrev Memory : Type 0
Memory = Text → ℤ → ℕ

abbrev is_written : Text → ℤ → ℤ → Text → ℤ → Bool
is_written device offset count d s = text_eq d device && leb_ℤ offset s && ltb_ℤ s (offset +ℤ count)

-- Reading and writing always succeed.
abbrev memory_ped : Ped
memory_ped = record {
  World = Memory;
  Buffer = ℕ → ℕ;
  Contents = ℕ;
  sector_size = λ device. pos 512;
  opens = λ w device. true;
  read = λ w device offset count. some (λ i. w device (offset +ℤ pos i));
  write = λ w device b offset count. (
    true,
    λ d s. if is_written device offset count d s then b (pos_part (s -ℤ offset)) else w d s,
  );
  contents = λ w. w;
  sector = λ b. b;
}

abbrev sda : Text
sda = codes "/dev/sda"

-- Three sectors are moved by two sectors towards the end of the drive.
abbrev range : Range
range = record {
  src_device = sda;
  dst_device = sda;
  src_start = pos 0;
  dst_start = pos 2;
  src_sector_size = pos 512;
  dst_sector_size = pos 512;
  src_length = pos 1536;
  cancel_safe = true;
}

abbrev user : User
user = record { request = λ n. none; cancelflag = λ n. 0 }

abbrev numbered : Memory
numbered = λ device s. pos_part s

-- The same drive, where no sector can be read.
abbrev broken_ped : Ped
broken_ped = record memory_ped { read = λ w device offset count. none }

abbrev job : Job
job = record { src_device = sda; dst_device = sda; length = pos 1536; cancel_safe = true }

user-Patient : Patient user
user-Patient = record { no_request = λ n. refl; no_flag = λ n. refl }

copy-blind_example :
    (t : Copying Memory) × (copy broken_ped user job numbered 0 (pos 0) (pos 2) (pos 1024) (pos 0)
      ≡ some (t, pos 0 +ℤ pos 1536))
    × (t.success ≡ true)
    × (t.world ≡ numbered)
copy-blind_example =
    copy-blind broken_ped user job (λ w o count. refl) user-Patient numbered 0 (pos 0) (pos 2) 1536
      1024 (pos 0) refl (omega arith) (omega arith) refl refl

copy-Accounts_example :
    (t : Copying Memory) × (copy broken_ped user job numbered 0 (pos 0) (pos 2) (pos 1024) (pos 0)
      ≡ some (t, pos 0 +ℤ pos (llabs t.done)))
    × (((t.success ≡ true) × (llabs t.done ≡ 1536))
        ⊎ ((t.success ≡ false) × Cause broken_ped user job numbered t.error_message))
copy-Accounts_example =
    copy-Accounts broken_ped user job numbered 0 (pos 0) (pos 2) 1536 1024 (pos 0) refl
      (omega arith) (omega arith)
