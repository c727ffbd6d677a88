-- ===== src/CopyBlocks.antt =====
-- src/CopyBlocks.cc with libparted: copying a range of bytes from one place to another, block by
-- block. libparted's reading and writing of sectors are an interface; the user may ask to cancel
-- before any block. Texts and the progress bar are left out.
pub mod Steps
pub mod Loop
pub mod Whole
pub mod Moves
pub mod Blocks
pub mod Overlap
pub mod Pieces
pub mod Benchmark
pub mod Search
pub mod Rounds
pub mod Complete
pub mod Failures
use gparted_android.Prelude.{
  ℕ, zero, suc, ◌+◌, ◌≡◌, ◌≢◌, ◌<◌, ◌⊎◌, Bool, true, false, not, ◌&&◌, ◌||◌, Option, none, some,
  ◌==◌, if◌then◌else◌,
}
use gparted_android.Prelude.Int.{
  ℤ, pos, ◌+ℤ◌, ◌-ℤ◌, ◌*ℤ◌, ◌/ℤ◌, ◌%ℤ◌, ◌<ℤ◌, ◌≤ℤ◌, ltb_ℤ, eq_ℤ, llabs,
}
use gparted_android.Prelude.Text.{Text, text_eq}

-- What is used of libparted. `contents` and `sector` are for the laws only.
pub record Ped : Type 1 where
  pub World : Type 0
  pub Buffer : Type 0
  pub Contents : Type 0
  pub sector_size : Text → ℤ
  pub opens : World → Text → Bool
  pub read : World → Text → ℤ → ℤ → Option Buffer
  pub write : World → Text → Buffer → ℤ → ℤ → Bool × World
  pub contents : World → Text → ℤ → Contents
  pub sector : Buffer → ℕ → Contents

-- A read gives the sectors that were asked for; a write that succeeds puts those of the buffer in
-- their place and leaves all other sectors as they were.
pub record IsLawful (ped : Ped) : Type 0 where
  pub sector-read :
      (w : ped.World) (device : Text) (offset : ℤ) (count : ℕ) (b : ped.Buffer) (i : ℕ)
      → ped.read w device offset (pos count) ≡ some b
      → i < count
      → ped.sector b i ≡ ped.contents w device (offset +ℤ pos i)
  pub contents-write :
      (w : ped.World) (device : Text) (b : ped.Buffer) (offset : ℤ) (count i : ℕ)
      → (ped.write w device b offset (pos count)).0 ≡ true
      → i < count
      → ped.contents (ped.write w device b offset (pos count)).1 device (offset +ℤ pos i)
        ≡ ped.sector b i
  pub contents-write_other :
      (w : ped.World) (device : Text) (b : ped.Buffer) (offset : ℤ) (count : ℕ) (d : Text) (s : ℤ)
      → (d ≢ device) ⊎ (s <ℤ offset) ⊎ (offset +ℤ pos count ≤ℤ s)
      → ped.contents (ped.write w device b offset (pos count)).1 d s ≡ ped.contents w d s

pub data Message : Type 0 where
  no_message operation_canceled : Message
  write_error read_error : ℤ → Message

-- The members that do not change while the blocks are copied.
pub record Job : Type 0 where
  pub src_device : Text
  pub dst_device : Text
  pub length : ℤ
  pub cancel_safe : Bool

-- The members that change, what libparted has, and the number of blocks that were asked for.
pub record Copying (World : Type 0) : Type 0 where
  pub world : World
  pub blocks : ℕ
  pub offset_src : ℤ
  pub offset_dst : ℤ
  pub blocksize : ℤ
  pub done : ℤ
  pub success : Bool
  pub cancel : Bool
  pub error_message : Message

-- The user's requests to cancel: one that comes before the block of that number, with its `force`,
-- and the flag of the operation detail at that time.
pub record User : Type 0 where
  pub request : ℕ → Option Bool
  pub cancelflag : ℕ → ℕ

unfoldable pub set_cancel : Bool → Bool → Bool → Bool
set_cancel cancel_safe force cancel = if force || cancel_safe then true else cancel

module _ (ped : Ped) where
  abbrev pub before_block : User → Job → Copying (ped.World) → Copying (ped.World)
  before_block user job s = record s {
    blocks = s.blocks + 1;
    cancel = elim (user.request s.blocks) [
      | none ↦ s.cancel
      | some force ↦ set_cancel job.cancel_safe force s.cancel
    ];
  }

  -- The offsets move by a block, towards the start where the block size is negative.
  abbrev pub move_offsets : Job → Copying (ped.World) → Copying (ped.World)
  move_offsets job s = record s {
    offset_src = s.offset_src +ℤ s.blocksize /ℤ ped.sector_size job.src_device;
    offset_dst = s.offset_dst +ℤ s.blocksize /ℤ ped.sector_size job.dst_device;
  }

  abbrev pub num_blocks : ℤ → ℤ → ℤ
  num_blocks blocksize sector_size =
      (pos (llabs blocksize) +ℤ (sector_size -ℤ pos 1)) /ℤ sector_size

  abbrev pub written : Copying (ped.World) → Bool × ped.World → Copying (ped.World)
  written s (true, w) = record s { world = w; success = true }
  written s (false, w) = record s {
    world = w;
    success = false;
    error_message = write_error s.offset_dst;
  }

  -- What was read is written.
  abbrev pub received : Job → Copying (ped.World) → Option (ped.Buffer) → Copying (ped.World)
  received job s none = record s { error_message = read_error s.offset_src }
  received job s (some buf) = written s (
      ped.write s.world job.dst_device buf s.offset_dst
        (num_blocks s.blocksize (ped.sector_size job.dst_device)))

  unfoldable pub transfer : Job → Copying (ped.World) → Copying (ped.World)
  transfer job s = received job s (
      ped.read s.world job.src_device s.offset_src
        (num_blocks s.blocksize (ped.sector_size job.src_device)))

  unfoldable pub try_block : Job → Copying (ped.World) → Copying (ped.World)
  unfolding transfer
  try_block job s = if eq_ℤ s.blocksize (pos 0) then s else transfer job s

  unfoldable pub move_forward : Job → Copying (ped.World) → Copying (ped.World)
  move_forward job s = if ltb_ℤ (pos 0) s.blocksize then move_offsets job s else s

  unfoldable pub move_backward : Job → Copying (ped.World) → Copying (ped.World)
  move_backward job s = if ltb_ℤ s.blocksize (pos 0) then move_offsets job s else s

  unfoldable pub count_block : Copying (ped.World) → Copying (ped.World)
  count_block s = if s.success then record s { done = s.done +ℤ s.blocksize } else s

  unfoldable pub run_block : Job → Copying (ped.World) → Copying (ped.World)
  unfolding try_block move_forward count_block
  run_block job s =
      if s.cancel
      then record s { error_message = operation_canceled; success = false }
      else count_block (move_forward job (try_block job s))

  unfoldable pub copy_block : Job → Copying (ped.World) → Copying (ped.World)
  unfolding move_backward run_block
  copy_block job s = run_block job (move_backward job s)

  abbrev pub goes_on : Job → Copying (ped.World) → Bool
  goes_on job s = s.success && ltb_ℤ (pos (llabs s.done)) job.length

  -- The loop, on fuel.
  unfoldable pub copy_rest : User → Job → ℕ → Copying (ped.World) → Option (Copying (ped.World))
  unfolding copy_block
  copy_rest user job zero s = if goes_on job s then none else some s
  copy_rest user job (suc fuel) s =
      let rest = copy_rest user job fuel (copy_block job (before_block user job s)) in
      if goes_on job s then rest else some s

  -- The copy begins with the end.
  abbrev pub turned : Job → Copying (ped.World) → Copying (ped.World)
  turned job s = record s {
    blocksize = s.blocksize -ℤ pos 2 *ℤ s.blocksize;
    done = s.done -ℤ pos 2 *ℤ s.done;
    offset_src = s.offset_src +ℤ job.length /ℤ ped.sector_size job.src_device;
    offset_dst =
        s.offset_dst
        +ℤ (job.length +ℤ (ped.sector_size job.dst_device -ℤ pos 1))
          /ℤ ped.sector_size job.dst_device;
  }

  -- Data that goes towards the end of the drive is copied from its end to its start.
  unfoldable pub choose_direction : Job → Copying (ped.World) → Copying (ped.World)
  choose_direction job s = if ltb_ℤ s.offset_src s.offset_dst then turned job s else s

  abbrev pub partial_block : Copying (ped.World) → Copying (ped.World)
  partial_block s = record s { blocksize = s.done; done = pos 0 }

  -- A part of a block comes first, so that whole blocks are left.
  unfoldable pub copy_partial : User → Job → Copying (ped.World) → Copying (ped.World)
  unfolding copy_block
  copy_partial user job s =
      if s.success && not (eq_ℤ s.done (pos 0))
      then record (copy_block job (before_block user job (partial_block s))) {
        blocksize = s.blocksize;
      }
      else s

  abbrev pub open_devices : Job → Copying (ped.World) → Bool
  open_devices job s =
      ped.opens s.world job.src_device
      && (text_eq job.src_device job.dst_device || ped.opens s.world job.dst_device)

  abbrev pub opened : Job → Copying (ped.World) → Copying (ped.World)
  opened job s =
      if open_devices job s
      then record (choose_direction job s) { success = true }
      else record s { success = false }

  unfoldable pub copy_thread : User → Job → Copying (ped.World) → Option (Copying (ped.World))
  unfolding choose_direction copy_partial copy_rest
  copy_thread user job s =
      copy_rest user job (llabs job.length) (copy_partial user job (opened job s))

  -- The state after the constructor and the start of `copy`: at most the length in one block, and
  -- the bytes that do not fill a block.
  abbrev pub constructed : User → Job → ped.World → ℕ → ℤ → ℤ → ℤ → Copying (ped.World)
  constructed user job w blocks src_start dst_start blocksize =
      let size : ℤ = if ltb_ℤ job.length blocksize then job.length else blocksize in
      record {
        world = w;
        blocks = blocks;
        offset_src = src_start;
        offset_dst = dst_start;
        blocksize = size;
        done = job.length %ℤ size;
        success = false;
        cancel =
            if user.cancelflag blocks == 0
            then false
            else set_cancel job.cancel_safe (user.cancelflag blocks == 2) false;
        error_message = no_message;
      }

  -- The end of `copy`: the state, and `total_done` with the bytes of this copy.
  unfoldable pub copy :
      User → Job → ped.World → ℕ → ℤ → ℤ → ℤ → ℤ → Option (Copying (ped.World) × ℤ)
  unfolding copy_thread
  copy user job w blocks src_start dst_start blocksize total_done =
      elim (copy_thread user job (constructed user job w blocks src_start dst_start blocksize)) [
        | none ↦ none
        | some s ↦ some (s, total_done +ℤ pos (llabs s.done))
      ]
