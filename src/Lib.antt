-- ===== src/Lib.antt =====
-- GParted for Android: the partition model, the pending operations and what they show.
--
-- The program keeps a device with its partitions, a list of pending operations, and a display of the
-- device with the operations applied. A window adds operations to the list; each is applied to the
-- displayed partitions (`apply_to_visual`), which are filled up with unallocated space again. When the
-- user applies the list, the core carries out each operation on the drive (`apply_operation_to_disk`).
--
-- Files, and the sources they model (paths from the repository's root):
--   Prelude               lists, tests, texts (lists of character codes) and integers
--   Utils                 src/Utils.cc: sizes and names of file systems
--   Partition             include/Partition.h, include/PartitionLUKS.h: the state of a partition. A
--                         `PartitionLUKS` is a partition with a `LuksPart`.
--   Partition/Basic       src/Partition.cc: setters, lengths, comparison
--   Partition/Members     src/Partition.cc: label, flags, mount points, messages
--   Partition/Flags       src/GParted_Core.cc: `compose_partition_flags`
--   Partition/Usage       src/Partition.cc: the sector figures; Partition/UsageLaws their laws
--   Partition/Luks        src/PartitionLUKS.cc; Partition/LuksLaws its laws
--   PartitionVector       src/PartitionVector.cc
--   Device                src/Device.cc
--   Unallocated           `GParted_Core::insert_unallocated` in src/GParted_Core_Adb.cc, the same in
--                         src/GParted_Core.cc; below it the layouts and the laws
--   Operation             include/Operation.h and the constructors of src/Operation*.cc
--   Operation/Visual      `apply_to_visual` of each class; Operation/Search, VisualLaws and
--                         LogicalLaws (in an extended partition), ResizeLaws its laws; Place says
--                         where a search in a layout ends
--   Operation/Merge       `merge_operations` of each class; Operation/MergeLaws its laws
--   OperationDetail       src/OperationDetail.cc: the tree of the details of an operation;
--                         OperationDetail/Order and Calls its laws
--   Pending               src/Win_GParted.cc: `add_operation`, `merge_operation`, `remove_operation`,
--                         `Refresh_Visual`; `GParted_Core::valid_partition`; Pending/Laws and
--                         Pending/Boundaries its laws
--   PasswordStore         src/PasswordRAMStore.cc: one block of memory with offsets for pointers;
--                         below it the valid stores, the map they stand for, and the limits
--   PipeCapture           src/PipeCapture.cc: the line discipline of the output of commands;
--                         Loop, Characters, Reads, Discipline and Overwrite its laws
--   CopyBlocks            src/CopyBlocks.cc: copying a range block by block, with libparted as a
--                         parameter; CopyBlocks/Benchmark `copy_blocks` of src/GParted_Core.cc, which
--                         searches for the best block size; Complete and Failures the laws of the
--                         whole, the other files below it the laws of one block, one copy and one
--                         piece that they are made of
--   Execute               src/GParted_Core.cc: `apply_operation_to_disk` and what it calls, as runs that
--                         ask a `World` for single steps and keep the history of the answers.
--                         Execute/Filesystem, Partition, Resize, Move, ResizeMove, Create, Copy and
--                         Apply hold the functions in the order of their calls; Execute/Disk reads a
--                         history as what happens to a partition, with the rules for each function
--                         below it (Copying: a copy to an overlapping place, and back); Execute/Success is about the reported result, Execute/Progress
--                         about runs in which all steps succeed, Execute/Rollback and
--                         Execute/Termination about the copying back and the recursion
--   Adb                   src/GParted_Core_Adb.cc and src/adb/PartedCommand.cc: the same operations as
--                         commands of parted on an Android device, with the history of the commands;
--                         Adb/Laws about which partition they reach
--   Tests                 runs at concrete inputs
--
-- Numbers: `Sector`, `Byte_Value` and `int` are integers without a bound, so overflow of 64 bits is
-- not modelled. `double` is a parameter (`Doubles`), and so is the translation of messages
-- (`Gettext`). The loops of the source are recursions on the list they walk; the digits of a number
-- are computed on fuel one above the number, which is enough for its digits. `resize_move` calls itself
-- on fuel: with strict boundaries two levels are enough, since the partition between a move and a resize
-- shares the start or the length with the one before it and with the one behind it.
-- The loops of CopyBlocks are on fuel too: a copy needs no more rounds than the range has bytes, and the
-- search for a block size ends after five. In Execute a copy of blocks is a single step, which tells how
-- many bytes it has copied.
-- An index of -1 is `none`. A null pointer is `none`. A write past the end of the password block is
-- undefined behaviour in the source; the operation has no result then.
--
-- Not modelled: the descriptions and icons of operations, the menus and dialogs, the scan of devices,
-- what the single steps on the disk ask of libparted and of external tools, the parser of the output of
-- parted, the drivers of file systems, the triple of figures for the display (which is computed with
-- `double` and `int`), and the threads of src/CopyBlocks.cc. lib/gtest is another project's.
pub mod Adb
pub mod CopyBlocks
pub mod Device
pub mod Execute
pub mod Operation
pub mod OperationDetail
pub mod Partition
pub mod PartitionVector
pub mod PasswordStore
pub mod Pending
pub mod PipeCapture
pub mod Prelude
pub mod Tests
pub mod Unallocated
pub mod Utils
