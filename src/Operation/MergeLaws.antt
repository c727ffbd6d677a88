-- ===== src/Operation/MergeLaws.antt =====
-- Merging a pending operation into an earlier one does not change what is shown (src/Operation*.cc).
use gparted_android.Prelude.{◌≡◌, refl, sym, true, false, none, some, List}
use gparted_android.Prelude.Text.{Text, text_eq}
use gparted_android.Utils.{Gettext}
use gparted_android.Partition.{Partition, type_is, type_unpartitioned}
use gparted_android.Partition.Basic.{same_partition}
use gparted_android.Partition.Members.{set_filesystem_label, get_filesystem_label}
use gparted_android.Device.{Device}
use gparted_android.Operation.{
  changing, Change, format, label_filesystem, change_uuid, name_partition,
}
use gparted_android.Operation.Visual.{apply_to_visual, format_visual, substitute_new}
use gparted_android.Operation.Search.{SamePlace, substitute_new-substitute_new}
use gparted_android.Operation.Merge.{
  merge_operations, merge_changes, uuid_random_ntfs_half, with_uuid, with_name, with_label,
}

-- How the window makes the new partition of a second operation from `m`, the new partition of the
-- first: any formatted partition, or `m` with another label, identifier or name.
pub data Follows (tr : Gettext) (m n : Partition) : Change → Type 0 where
  formatted : Follows tr m n format
  labelled : (l : Text) → n ≡ with_label l m → Follows tr m n label_filesystem
  identified :
      (u : Text)
      → n ≡ with_uuid u m
      → text_eq u (uuid_random_ntfs_half tr) ≡ false
      → Follows tr m n change_uuid
  named : (s : Text) → n ≡ with_name s m → Follows tr m n name_partition

-- The second operation starts from the partition that the first one leaves, where it leaves it; none of
-- the two is a whole disk device, and the partition is not encrypted. (The window sets the label and
-- the identifier of an encrypted file system inside its partition, and merging copies the outer ones.)
pub record Chained (o m q : Partition) : Type 0 where
  pub same : same_partition m q ≡ true
  pub at_original : SamePlace q o
  pub at_new : SamePlace q m
  pub inside : q.inside_extended ≡ o.inside_extended
  pub not_encrypted : m.luks ≡ none
  pub partitioned : type_is o.type type_unpartitioned ≡ false
  pub partitioned_too : type_is q.type type_unpartitioned ≡ false

merge_changes-Follows :
    (tr : Gettext) (c : Change) (m q n : Partition)
    → same_partition m q ≡ true
    → Follows tr m n c
    → merge_changes tr c m c q n ≡ some n
unfolding merge_changes set_filesystem_label get_filesystem_label
merge_changes-Follows tr c m q n s formatted = rw s refl
merge_changes-Follows tr c m q n s (labelled l e) = rw (s, e) refl
merge_changes-Follows tr c m q n s (identified u e h) = rw (s, e, h) refl
merge_changes-Follows tr c m q n s (named t e) = rw (s, e) refl

format_is_substitute :
    (tr : Gettext) (d : Device) (o n : Partition) (ps : List Partition)
    → type_is o.type type_unpartitioned ≡ false
    → format_visual tr d o n ps ≡ substitute_new o n ps
unfolding format_visual
format_is_substitute tr d o n ps h = simp h refl

apply_is_substitute :
    (tr : Gettext) (c : Change) (d : Device) (o m n k : Partition) (ps : List Partition)
    → Follows tr m n c
    → type_is o.type type_unpartitioned ≡ false
    → apply_to_visual tr (changing c d o k) ps ≡ substitute_new o k ps
unfolding apply_to_visual
apply_is_substitute tr c d o m n k ps formatted h = format_is_substitute tr d o k ps h
apply_is_substitute tr c d o m n k ps (labelled l e) h = refl
apply_is_substitute tr c d o m n k ps (identified u e f) h = refl
apply_is_substitute tr c d o m n k ps (named t e) h = refl

-- A second format, label, identifier or name operation on the same partition, which is neither encrypted
-- nor a whole disk, is merged into the first, and the merged operation shows the partitions as the two
-- in turn do; the new identifier is not the one of which half is random.
pub merge_shows_both :
    (tr : Gettext) (c : Change) (d e : Device) (o m q n : Partition) (ps : List Partition)
    → Chained o m q
    → Follows tr m n c
    → (merge_operations tr (changing c d o m) (changing c e q n) ≡ (changing c d o n, true))
      × (apply_to_visual tr (changing c d o n) ps
          ≡ apply_to_visual tr (changing c e q n) (apply_to_visual tr (changing c d o m) ps))
unfolding merge_operations
merge_shows_both tr c d e o m q n ps k f = (
  rw (merge_changes-Follows tr c m q n k.same f, merge_operations) refl,
  rw
      (
        apply_is_substitute tr c d o m n n ps f k.partitioned,
        apply_is_substitute tr c d o m n m ps f k.partitioned,
        apply_is_substitute tr c e q m n n _ f k.partitioned_too,
      )
      (sym (substitute_new-substitute_new o m q n ps k.at_original k.at_new k.inside)),
)
