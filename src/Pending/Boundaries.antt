-- ===== src/Pending/Boundaries.antt =====
-- The pending operations keep valid boundaries (`add_operation` of src/Win_GParted.cc).
use mathlib.Core.Path.{subst}
use gparted_android.Prelude.{
  ◌≡◌, refl, ap, if◌then◌else◌, Bool, true, false, ◌&&◌, Option, none, some, List, [], ◌∷◌, ◌++◌,
  All, Option-cases, inl, inr,
}
use gparted_android.Utils.{Gettext}
use gparted_android.Partition.{Partition, stat_new, status_is}
use gparted_android.Partition.Basic.{same_partition}
use gparted_android.Device.{Device}
use gparted_android.Operation.{
  Operation, deletion, changing, copying, Change, check, create, resize_move, format,
  label_filesystem, change_uuid, name_partition,
}
use gparted_android.Operation.Merge.{merge_operations, merge_changes}
use gparted_android.Pending.{valid_partition, refusal, add_operation}
use gparted_android.Pending.Laws.{
  Merged, here, further, refused, merged, appended, add_operation-Added,
}

module _ (device : Device) where
  -- The boundaries that the guard looks at are valid.
  abbrev pub IsAccepted : Operation → Type 0
  IsAccepted op = refusal device op ≡ none

  abbrev pub AllAccepted : List Operation → Type 0
  AllAccepted ops = All IsAccepted ops

  -- The guard does not look at a format operation, which takes its boundaries from its original.
  abbrev pub IsFormatValid : Operation → Type 0
  IsFormatValid (changing format d o n) = valid_partition device n ≡ none
  IsFormatValid _ = Unit

  same_new :
      (n m : Partition)
      → some n ≡ some m
      → valid_partition device n ≡ none
      → valid_partition device m ≡ none
  same_new n m e v =
      subst (λ (p : Partition). valid_partition device p ≡ none)
        (ap (λ (o : Option Partition). elim o [ none ↦ n | some p ↦ p ]) e) v

  taken :
      (b : Bool) (n m : Partition)
      → (if b then some n else none) ≡ some m
      → valid_partition device n ≡ none
      → valid_partition device m ≡ none
  taken true n m e v = same_new n m e v
  taken false n m e v = cc

  merged_new :
      (tr : Gettext) (c c' : Change) (d d' : Device) (o n o' n' m : Partition)
      → IsAccepted (changing c d o n)
      → IsAccepted (changing c' d' o' n')
      → IsFormatValid (changing c' d' o' n')
      → merge_changes tr c n c' o' n' ≡ some m
      → IsAccepted (changing c d o m)
  unfolding merge_changes
  merged_new tr check c' d d' o n o' n' m a b f e = refl
  merged_new tr format c' d d' o n o' n' m a b f e = refl
  merged_new tr label_filesystem c' d d' o n o' n' m a b f e = refl
  merged_new tr change_uuid c' d d' o n o' n' m a b f e = refl
  merged_new tr name_partition c' d d' o n o' n' m a b f e = refl
  merged_new tr create format d d' o n o' n' m a b f e =
      taken (status_is o'.status stat_new && same_partition n o') n' m e f
  merged_new tr create resize_move d d' o n o' n' m a b f e =
      taken (status_is o'.status stat_new && same_partition n o') n' m e b
  merged_new tr create check d d' o n o' n' m a b f e = cc
  merged_new tr create create d d' o n o' n' m a b f e = cc
  merged_new tr create label_filesystem d d' o n o' n' m a b f e = cc
  merged_new tr create change_uuid d d' o n o' n' m a b f e = cc
  merged_new tr create name_partition d d' o n o' n' m a b f e = cc
  merged_new tr resize_move resize_move d d' o n o' n' m a b f e =
      taken (same_partition n o') n' m e b
  merged_new tr resize_move format d d' o n o' n' m a b f e = cc
  merged_new tr resize_move check d d' o n o' n' m a b f e = cc
  merged_new tr resize_move create d d' o n o' n' m a b f e = cc
  merged_new tr resize_move label_filesystem d d' o n o' n' m a b f e = cc
  merged_new tr resize_move change_uuid d d' o n o' n' m a b f e = cc
  merged_new tr resize_move name_partition d d' o n o' n' m a b f e = cc

  merge_operations-IsAccepted :
      (tr : Gettext) (op candidate : Operation)
      → IsAccepted op
      → IsAccepted candidate
      → IsFormatValid candidate
      → IsAccepted (merge_operations tr op candidate).0
  unfolding merge_operations
  merge_operations-IsAccepted tr (deletion d o) candidate a b f = a
  merge_operations-IsAccepted tr (copying d o n s) candidate a b f = a
  merge_operations-IsAccepted tr (changing c d o n) (deletion d' o') a b f = a
  merge_operations-IsAccepted tr (changing c d o n) (copying d' o' n' s') a b f = a
  merge_operations-IsAccepted tr (changing c d o n) (changing c' d' o' n') a b f =
      elim (Option-cases (merge_changes tr c n c' o' n')) [
        | inl e ↦ rw (e, merge_operations) a
        | inr (m, e) ↦ rw (e, merge_operations) (merged_new tr c c' d d' o n o' n' m a b f e)
      ]

  Merged-AllAccepted :
      (tr : Gettext) (op : Operation) (ops ops' : List Operation)
      → IsAccepted op
      → IsFormatValid op
      → AllAccepted ops
      → Merged tr op ops ops'
      → AllAccepted ops'
  Merged-AllAccepted tr op [] ops' b f a m = elim m [ ]
  Merged-AllAccepted tr op (o ∷ later) ops' b f a (here t u m e) =
      rw e (merge_operations-IsAccepted tr o op a.0 b f, a.1)
  Merged-AllAccepted tr op (o ∷ before) (_ ∷ after) b f a (further m) =
      (a.0, Merged-AllAccepted tr op before after b f a.1 m)

  append-AllAccepted :
      (ops : List Operation) (op : Operation)
      → AllAccepted ops
      → IsAccepted op
      → AllAccepted (ops ++ op ∷ [])
  append-AllAccepted [] op a b = (b, tt)
  append-AllAccepted (o ∷ ops) op a b = (a.0, append-AllAccepted ops op a.1 b)

  -- In the list of operations of a device, the boundaries that the guard looks at stay valid when an
  -- operation is added, also where it is merged into an earlier one, if a format operation that is
  -- added has the boundaries of a valid partition.
  pub add_operation-AllAccepted :
      (tr : Gettext) (op : Operation) (ops : List Operation)
      → IsFormatValid op
      → AllAccepted ops
      → AllAccepted (add_operation tr device (some op) ops).0
  add_operation-AllAccepted tr op ops f a = elim (add_operation-Added tr device op ops) [
    | refused error h e ↦ rw e a
    | merged ops' h m e ↦ rw e (Merged-AllAccepted tr op ops ops' h f a m)
    | appended h e ↦ rw e (append-AllAccepted ops op a h)
  ]
