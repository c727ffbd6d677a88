-- ===== src/Operation/Visual.antt =====
-- `apply_to_visual`: how a pending operation changes the partitions that are shown
-- (src/Operation.cc and src/Operation*.cc).
use gparted_android.Prelude.{
  ℕ, zero, suc, ◌-◌, if◌then◌else◌, Bool, true, false, ◌&&◌, Option, none, some, List, [], ◌∷◌, ltb,
}
use gparted_android.Prelude.Int.{ℤ, pos, ◌-ℤ◌, leb_ℤ, ltb_ℤ}
use gparted_android.Utils.{Gettext}
use gparted_android.Partition.{
  Partition, stat_new, status_is, type_is, type_extended, type_unallocated, type_unpartitioned,
  FsType, fs_unallocated, fs_cleared, logicals, with_logicals, with_attributes,
}
use gparted_android.Partition.Basic.{new_partition, set_unpartitioned, update_number}
use gparted_android.PartitionVector.{
  next_index, pop_back, erase, replace_at, find_extended_partition, push_back_adopt,
}
use gparted_android.Device.{Device}
use gparted_android.Unallocated.{insert_unallocated, back}
use gparted_android.Unallocated.Erasing.{unallocated_at}
use gparted_android.Operation.{
  Operation, deletion, changing, copying, check, create, resize_move, format, label_filesystem,
  change_uuid, name_partition,
}

-- The first partition that has the same boundaries as `p` or encloses it: `find_index_original` for
-- the original partition of an operation, `find_index_new` for its new one.
abbrev pub encloses : Partition → Partition → Bool
encloses p q = leb_ℤ q.sector_start p.sector_start && leb_ℤ p.sector_end q.sector_end

unfoldable pub find_index : Partition → List Partition → Option ℕ
find_index p [] = none
find_index p (q ∷ ps) = if encloses p q then some 0 else next_index (find_index p ps)

abbrev pub update_at : ℕ → (Partition → Partition) → List Partition → List Partition
update_at i f [] = []
update_at zero f (p ∷ ps) = f p ∷ ps
update_at (suc i) f (p ∷ ps) = p ∷ update_at i f ps

-- A change of the logical partitions of the extended partition, if there is one.
unfoldable pub edit_logicals :
    (Partition → List Partition → List Partition) → List Partition → List Partition
edit_logicals f ps = elim (find_extended_partition ps) [
  | none ↦ ps
  | some e ↦ update_at e (λ x. with_logicals (f x (logicals x)) x) ps
]

-- A change at the index where `p` is found.
unfoldable pub edit_found :
    Partition → (ℕ → List Partition → List Partition) → List Partition → List Partition
edit_found p f ps = elim (find_index p ps) [ none ↦ ps | some i ↦ f i ps ]

unfoldable pub substitute_new : Partition → Partition → List Partition → List Partition
substitute_new original new ps =
    if original.inside_extended
    then edit_logicals (λ x. edit_found original (λ i ls. replace_at ls i new)) ps
    else edit_found original (λ i ls. replace_at ls i new) ps

-- The unallocated space after index `i` goes.
abbrev pub remove_next : ℕ → List Partition → List Partition
remove_next i ps = if unallocated_at ps (suc i) then erase ps (suc i) else ps

abbrev pub unallocated_before : ℕ → List Partition → Bool
unallocated_before i ps = ltb 0 i && unallocated_at ps (i - 1)

unfoldable pub remove_original_and_adjacent_unallocated : ℕ → List Partition → List Partition
remove_original_and_adjacent_unallocated i ps =
    let qs = remove_next i ps in
    if unallocated_before i qs then erase (erase qs (i - 1)) (i - 1) else erase qs i

unfoldable pub remove_adjacent_unallocated : ℕ → List Partition → List Partition
remove_adjacent_unallocated i ps =
    let qs = remove_next i ps in if unallocated_before i qs then erase qs (i - 1) else qs

-- The logical partitions behind a deleted one move up by one number.
unfoldable pub renumber : ℤ → List Partition → List Partition
renumber number [] = []
renumber number (p ∷ ps) =
    (if ltb_ℤ number p.partition_number
      then with_attributes (update_number (p.partition_number -ℤ pos 1) p.attributes) p
      else p)
    ∷ renumber number ps

-- Unallocated space at the two ends of the logicals goes.
unfoldable pub trim_front : List Partition → List Partition
trim_front [] = []
trim_front (p ∷ ps) = if type_is p.type type_unallocated then ps else p ∷ ps

unfoldable pub trim_back : List Partition → List Partition
trim_back [] = []
trim_back (p ∷ ps) = if type_is (back p ps).type type_unallocated then pop_back (p ∷ ps) else p ∷ ps

abbrev is_cleared : FsType → Bool
is_cleared fs_cleared = true
is_cleared _ = false

module _ (tr : Gettext) (d : Device) where
  -- `insert_unallocated` over the whole device, and inside an extended partition.
  abbrev pub fill_device : List Partition → List Partition
  fill_device ps = insert_unallocated tr d.path d.sector_size false ps (pos 0) (d.length -ℤ pos 1)

  abbrev pub fill_extended : Partition → List Partition → List Partition
  fill_extended x ls =
      insert_unallocated tr d.path d.sector_size true ls x.sector_start x.sector_end

  unfoldable pub insert_new : Partition → List Partition → List Partition
  insert_new new ps =
      if new.inside_extended
      then edit_logicals (λ x. edit_found new (λ i ls. fill_extended x (replace_at ls i new))) ps
      else edit_found new (λ i ls. fill_device (replace_at ls i new)) ps

  -- `OperationDelete::apply_to_visual`
  unfoldable pub delete_visual : Partition → List Partition → List Partition
  delete_visual original ps =
      if original.inside_extended
      then edit_logicals
          (λ x. edit_found original (λ i ls.
            let filled = fill_extended x (remove_original_and_adjacent_unallocated i ls) in
            if status_is original.status stat_new
            then filled
            else renumber original.partition_number filled))
          ps
      else edit_found original (λ i ls. fill_device (remove_original_and_adjacent_unallocated i ls))
          ps

  -- `apply_normal_to_visual`
  unfoldable pub resize_normal_visual : Partition → Partition → List Partition → List Partition
  resize_normal_visual original new ps =
      if original.inside_extended
      then edit_logicals
          (λ x.
            edit_found original
              (λ i ls. fill_extended x (remove_adjacent_unallocated i (replace_at ls i new))))
          ps
      else edit_found original
          (λ i ls. fill_device (remove_adjacent_unallocated i (replace_at ls i new))) ps

  abbrev move_to : Partition → Partition → Partition
  move_to new x =
      with_attributes
        (record (x.attributes) { sector_start = new.sector_start; sector_end = new.sector_end }) x

  -- The part of `apply_extended_to_visual` outside the extended partition.
  unfoldable pub resize_extended_outside : Partition → List Partition → List Partition
  resize_extended_outside new ps = elim (find_extended_partition ps) [
    | none ↦ ps
    | some e ↦
        let qs = remove_adjacent_unallocated e ps in
        fill_device
          (elim (find_extended_partition qs) [ none ↦ qs | some i ↦ update_at i (move_to new) qs ])
  ]

  -- Its part inside.
  unfoldable pub resize_extended_inside : List Partition → List Partition
  resize_extended_inside = edit_logicals (λ x ls. fill_extended x (trim_back (trim_front ls)))

  unfoldable pub resize_visual : Partition → Partition → List Partition → List Partition
  resize_visual original new ps =
      if type_is original.type type_extended
      then resize_extended_inside (resize_extended_outside new ps)
      else resize_normal_visual original new ps

  unfoldable pub format_visual : Partition → Partition → List Partition → List Partition
  format_visual original new ps =
      if type_is original.type type_unpartitioned && is_cleared new.fstype
      then push_back_adopt []
          (set_unpartitioned tr d.path [] fs_unallocated d.length d.sector_size false new_partition)
      else substitute_new original new ps

  unfoldable pub copy_visual : Partition → Partition → List Partition → List Partition
  copy_visual original new ps =
      if type_is original.type type_unallocated
      then insert_new new ps
      else substitute_new original new ps

-- `apply_to_visual`
unfoldable pub apply_to_visual : Gettext → Operation → List Partition → List Partition
apply_to_visual tr (deletion d o) ps = delete_visual tr d o ps
apply_to_visual tr (copying d o n s) ps = copy_visual tr d o n ps
apply_to_visual tr (changing check d o n) ps = ps
apply_to_visual tr (changing create d o n) ps = insert_new tr d n ps
apply_to_visual tr (changing resize_move d o n) ps = resize_visual tr d o n ps
apply_to_visual tr (changing format d o n) ps = format_visual tr d o n ps
apply_to_visual tr (changing label_filesystem d o n) ps = substitute_new o n ps
apply_to_visual tr (changing change_uuid d o n) ps = substitute_new o n ps
apply_to_visual tr (changing name_partition d o n) ps = substitute_new o n ps
