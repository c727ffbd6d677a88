-- ===== src/CopyBlocks/Benchmark.antt =====
-- `copy_blocks` of src/GParted_Core.cc: pieces of 16 MiB are copied with blocks of 1 to 16 MiB, to find
-- the size that is fastest, and what is left with that size.
use gparted_android.Prelude.{ℕ, zero, suc, Bool, true, ◌&&◌, Option, none, some, if◌then◌else◌}
use gparted_android.Prelude.Int.{ℤ, pos, ◌+ℤ◌, ◌-ℤ◌, ◌*ℤ◌, ◌/ℤ◌, llabs, ltb_ℤ, leb_ℤ}
use gparted_android.Prelude.Text.{Text}
use gparted_android.Partition.{Attributes}
use gparted_android.Partition.Basic.{get_byte_length}
use gparted_android.Partition.Usage.{mebibyte}
use gparted_android.CopyBlocks.{Ped, Job, User, Copying, copy}

-- What is to be copied.
pub record Range : Type 0 where
  pub src_device : Text
  pub dst_device : Text
  pub src_start : ℤ
  pub dst_start : ℤ
  pub src_sector_size : ℤ
  pub dst_sector_size : ℤ
  pub src_length : ℤ
  pub cancel_safe : Bool

-- The local variables of `copy_blocks`, the world, and the number of blocks that were asked for.
pub record Search (World : Type 0) : Type 0 where
  pub world : World
  pub blocks : ℕ
  pub benchmark_blocksize : ℤ
  pub optimal_blocksize : ℤ
  pub done : ℤ
  pub total_done : ℤ
  pub success : Bool

abbrev pub benchmark_copysize : ℤ
benchmark_copysize = pos 16 *ℤ mebibyte

abbrev pub goes_backwards : Range → Bool
goes_backwards r = ltb_ℤ r.src_start r.dst_start

abbrev pub offset_read : Range → ℤ
offset_read r =
    if goes_backwards r
    then r.src_start
      +ℤ (r.src_length /ℤ r.src_sector_size -ℤ benchmark_copysize /ℤ r.src_sector_size)
    else r.src_start

abbrev pub offset_write : Range → ℤ
offset_write r =
    if goes_backwards r
    then r.dst_start
      +ℤ ((r.src_length +ℤ (r.dst_sector_size -ℤ pos 1)) /ℤ r.dst_sector_size
          -ℤ benchmark_copysize /ℤ r.dst_sector_size)
    else r.dst_start

-- The members of a `CopyBlocks` for a piece of that length.
abbrev pub job_of : Range → ℤ → Job
job_of r length = record {
  src_device = r.src_device;
  dst_device = r.dst_device;
  length = length;
  cancel_safe = r.cancel_safe;
}

-- `is_best` says whether a piece took no longer than the fastest before, by the number of blocks that
-- were asked for at its end.
module _ (ped : Ped) (user : User) (is_best : ℕ → Bool) (r : Range) where
  abbrev pub goes_on_searching : Search (ped.World) → Bool
  goes_on_searching b =
      b.success
      && leb_ℤ (pos (llabs b.done) +ℤ benchmark_copysize) r.src_length
      && leb_ℤ b.benchmark_blocksize benchmark_copysize

  abbrev pub measured : Search (ped.World) → Copying (ped.World) × ℤ → Search (ped.World)
  measured b (t, total) = record {
    world = t.world;
    blocks = t.blocks;
    benchmark_blocksize = b.benchmark_blocksize *ℤ pos 2;
    optimal_blocksize = if is_best t.blocks then b.benchmark_blocksize else b.optimal_blocksize;
    done = if goes_backwards r then b.done -ℤ benchmark_copysize else b.done +ℤ benchmark_copysize;
    total_done = total;
    success = t.success;
  }

  -- A piece of 16 MiB.
  unfoldable pub copy_piece : Search (ped.World) → Option (Copying (ped.World) × ℤ)
  copy_piece b =
      copy ped user (job_of r benchmark_copysize) b.world b.blocks
        (offset_read r +ℤ b.done /ℤ r.src_sector_size)
        (offset_write r +ℤ b.done /ℤ r.dst_sector_size) b.benchmark_blocksize b.total_done

  -- The loop, on fuel.
  unfoldable pub search : ℕ → Search (ped.World) → Option (Search (ped.World))
  unfolding copy_piece
  search zero b = if goes_on_searching b then none else some b
  search (suc fuel) b =
      if goes_on_searching b
      then elim (copy_piece b) [ none ↦ none | some out ↦ search fuel (measured b out) ]
      else some b

  abbrev pub remaining_length : Search (ped.World) → ℤ
  remaining_length b = r.src_length -ℤ pos (llabs b.done)

  -- Nothing was copied from the start yet if the copy goes backwards.
  abbrev pub done_from_start : Search (ped.World) → ℤ
  done_from_start b = if ltb_ℤ (pos 0) b.done then b.done else pos 0

  unfoldable pub copy_remaining : Search (ped.World) → Option (Copying (ped.World) × ℤ)
  copy_remaining b =
      copy ped user (job_of r (remaining_length b)) b.world b.blocks
        (r.src_start +ℤ done_from_start b /ℤ r.src_sector_size)
        (r.dst_start +ℤ done_from_start b /ℤ r.dst_sector_size) b.optimal_blocksize b.total_done

  abbrev pub with_rest : Search (ped.World) → Copying (ped.World) × ℤ → Search (ped.World)
  with_rest b (t, total) = record b {
    world = t.world;
    blocks = t.blocks;
    total_done = total;
    success = t.success;
  }

  unfoldable pub finish_copy_blocks : Search (ped.World) → Option (Search (ped.World))
  unfolding copy_remaining
  finish_copy_blocks b =
      if b.success && ltb_ℤ (pos (llabs b.done)) r.src_length
      then elim (copy_remaining b) [ none ↦ none | some out ↦ some (with_rest b out) ]
      else some b

  abbrev pub start_search : ped.World → ℕ → Search (ped.World)
  start_search w blocks = record {
    world = w;
    blocks = blocks;
    benchmark_blocksize = mebibyte;
    optimal_blocksize = mebibyte;
    done = pos 0;
    total_done = pos 0;
    success = true;
  }

  -- The result has the world, whether it succeeded and the bytes that were copied. The block sizes
  -- double from 1 MiB to 16 MiB, so that there are five rounds at most.
  unfoldable pub copy_blocks : ped.World → ℕ → Option (Search (ped.World))
  unfolding search finish_copy_blocks
  copy_blocks w blocks = elim (search 5 (start_search w blocks)) [
    | none ↦ none
    | some b ↦ finish_copy_blocks b
  ]

-- A file system is copied block by block from one partition to another.
abbrev pub range_of : Attributes → Attributes → Bool → Range
range_of src dst cancel_safe = record {
  src_device = src.device_path;
  dst_device = dst.device_path;
  src_start = src.sector_start;
  dst_start = dst.sector_start;
  src_sector_size = src.sector_size;
  dst_sector_size = dst.sector_size;
  src_length = get_byte_length src;
  cancel_safe = cancel_safe;
}

unfoldable pub copy_filesystem_internal :
    (ped : Ped)
    → User
    → (ℕ → Bool)
    → Attributes
    → Attributes
    → Bool
    → ped.World
    → ℕ
    → Option (Search (ped.World))
unfolding copy_blocks
copy_filesystem_internal ped user is_best src dst cancel_safe =
    copy_blocks ped user is_best (range_of src dst cancel_safe)
