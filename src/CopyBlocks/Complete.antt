-- ===== src/CopyBlocks/Complete.antt =====
-- `copy_blocks` of src/GParted_Core.cc as a whole.
use gparted_android.Prelude.{ℕ, ◌≡◌, ◌⊎◌, Bool, true, false}
use gparted_android.Prelude.Text.{Text}
use gparted_android.CopyBlocks.{Ped, IsLawful, User}
use gparted_android.CopyBlocks.Moves.{Copied}
use gparted_android.CopyBlocks.Benchmark.{Range, Search}
use gparted_android.CopyBlocks.Search.{OfSectors, Readable}

module _ (ped : Ped) (lawful : IsLawful ped) (user : User) (is_best : ℕ → Bool) (r : Range)
    (c m n : ℕ) (sizes : OfSectors ped r c m n) (readable : Readable ped r c m n)
    (start : ped.World) where
  -- What is left after the search.
  abbrev pub Result : Search (ped.World) → Type 0
  Result b =
      (b.success ≡ false)
      ⊎ ((b.success ≡ true)
          × (b.total_done ≡ r.src_length)
          × Copied ped r.src_device r.dst_device r.src_start r.dst_start start b.world 0 n)
