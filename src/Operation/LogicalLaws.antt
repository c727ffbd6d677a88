-- ===== src/Operation/LogicalLaws.antt =====
-- Deleting a logical partition (`OperationDelete::apply_to_visual`, src/OperationDelete.cc).
use gparted_android.Prelude.{
  ℕ, zero, suc, ◌≡◌, refl, ap, ◌∙◌, if◌then◌else◌, ◌⊎◌, Bool, true, false, sym, subst, Option, none,
  some, List, [], ◌∷◌, ◌++◌, length, get_elem?, set, Bool-cases, inl, inr,
}
use gparted_android.Prelude.Int.{ℤ, pos, ◌+ℤ◌, ◌-ℤ◌, ◌≤ℤ◌, ◌<ℤ◌, ltb_ℤ, ltb_ℤ→lt, ltb_ℤ→ge}
use gparted_android.Utils.{Gettext}
use gparted_android.Partition.{
  Partition, type_is, type_unallocated, stat_new, status_is, logicals, with_logicals,
  with_attributes,
}
use gparted_android.Partition.Basic.{update_number}
use gparted_android.PartitionVector.{erase, replace_at, find_extended_partition}
use gparted_android.Device.{Device}
use gparted_android.Unallocated.{grain}
use gparted_android.Unallocated.Layout.{InOrder, Covers, CoversAll, allocated}
use gparted_android.Unallocated.Tiles.{insert_unallocated_tiles}
use gparted_android.Operation.Visual.{
  find_index, update_at, remove_original_and_adjacent_unallocated, renumber, fill_extended,
  delete_visual, insert_new,
}
use gparted_android.Operation.Place.{find_index-at, erase-at, allocated-append}
use gparted_android.Operation.Search.{SamePlace, edit_found-some, edit_logicals-some}
use gparted_android.Operation.VisualLaws.{
  remove_original-InOrder, allocated-remove_original, find_index-InOrder,
}

renumber-InOrder :
    (n lo hi : ℤ) (ps : List Partition) → InOrder lo hi ps → InOrder lo hi (renumber n ps)
unfolding renumber update_number
renumber-InOrder n lo hi [] o = tt
renumber-InOrder n lo hi (p ∷ ps) o =
    let rest = renumber-InOrder n (p.sector_end +ℤ pos 1) hi ps o.3 in
    elim (Bool-cases (ltb_ℤ n p.partition_number)) [
      | inl h ↦ rw h (o.0, o.1, o.2, rest)
      | inr h ↦ rw h (o.0, o.1, o.2, rest)
    ]

renumber-Covers :
    (n g lo hi : ℤ) (ps : List Partition) → Covers g lo hi ps → Covers g lo hi (renumber n ps)
unfolding renumber update_number
renumber-Covers n g lo hi [] c = c
renumber-Covers n g lo hi (p ∷ ps) c =
    let rest = renumber-Covers n g (p.sector_end +ℤ pos 1) hi ps c.2 in
    elim (Bool-cases (ltb_ℤ n p.partition_number)) [
      | inl h ↦ rw h (c.0, c.1, rest)
      | inr h ↦ rw h (c.0, c.1, rest)
    ]

renumber-CoversAll :
    (n g lo hi : ℤ) (ps : List Partition) → CoversAll g lo hi ps → CoversAll g lo hi (renumber n ps)
unfolding renumber update_number
renumber-CoversAll n g lo hi [] c = absurd c
renumber-CoversAll n g lo hi (p ∷ ps) c =
    let rest = renumber-Covers n g (p.sector_end +ℤ pos 1) hi ps c.1 in
    elim (Bool-cases (ltb_ℤ n p.partition_number)) [
      | inl h ↦ rw h (c.0, rest)
      | inr h ↦ rw h (c.0, rest)
    ]

allocated-renumber :
    (n : ℤ) (ps : List Partition) → allocated (renumber n ps) ≡ renumber n (allocated ps)
unfolding renumber update_number
allocated-renumber n [] = refl
allocated-renumber n (p ∷ ps) =
    let rest = allocated-renumber n ps in
    elim (Bool-cases (ltb_ℤ n p.partition_number)) [
      | inl h ↦ elim (Bool-cases (type_is p.type type_unallocated)) [
        | inl t ↦ rw (h, t) rest
        | inr t ↦
            rw (h, t, h)
              (ap
                (◌∷◌ (with_attributes (update_number (p.partition_number -ℤ pos 1) p.attributes) p))
                rest)
      ]
      | inr h ↦ elim (Bool-cases (type_is p.type type_unallocated)) [
        | inl t ↦ rw (h, t) rest
        | inr t ↦ rw (h, t, h) (ap (◌∷◌ p) rest)
      ]
    ]

get_elem?-update_at :
    (i : ℕ) (f : Partition → Partition) (ps : List Partition) (x : Partition)
    → get_elem? ps i ≡ some x
    → get_elem? (update_at i f ps) i ≡ some (f x)
get_elem?-update_at i f [] x h = cc
get_elem?-update_at zero f (p ∷ ps) x h =
    ap (λ (o : Option Partition). elim o [ none ↦ none | some y ↦ some (f y) ]) h
get_elem?-update_at (suc i) f (p ∷ ps) x h = get_elem?-update_at i f ps x h

-- A shown layout of an extended partition: its logicals are in order inside of it, nothing is unshown,
-- and these are the ones that are not unallocated.
abbrev pub ShowsLogicals : Device → Partition → List Partition → List Partition → Type 0
ShowsLogicals d x kept ls =
    InOrder x.sector_start x.sector_end ls
    × CoversAll (grain d.sector_size) x.sector_start x.sector_end ls
    × (allocated ls ≡ kept)

-- A number above `n` goes down by one, and one up to `n` stays as it is with its partition.
abbrev pub Renumbered : ℤ → Partition → Partition → Type 0
Renumbered n q r =
    ((n <ℤ q.partition_number)
      × (r.partition_number ≡ q.partition_number -ℤ pos 1)
      × SamePlace r q
      × (r.fstype ≡ q.fstype))
    ⊎ ((q.partition_number ≤ℤ n) × (r ≡ q))

abbrev pub MovedUp : ℤ → List Partition → List Partition → Type 0
MovedUp n [] [] = Unit
MovedUp n [] (r ∷ rs) = ⊥
MovedUp n (q ∷ qs) [] = ⊥
MovedUp n (q ∷ qs) (r ∷ rs) = Renumbered n q r × MovedUp n qs rs

-- The partitions that stay: unchanged behind one that was not created yet, else moved up by a number.
abbrev pub Stays : Bool → ℤ → List Partition → List Partition → Type 0
Stays true n qs rs = rs ≡ qs
Stays false n qs rs = MovedUp n qs rs

renumber-MovedUp : (n : ℤ) (ps : List Partition) → MovedUp n ps (renumber n ps)
unfolding renumber update_number
renumber-MovedUp n [] = tt
renumber-MovedUp n (p ∷ ps) = elim (Bool-cases (ltb_ℤ n p.partition_number)) [
  | inl h ↦ rw (h) (
    inl (ltb_ℤ→lt n p.partition_number h, refl, record { start = refl; end = refl }, refl),
    renumber-MovedUp n ps,
  )
  | inr h ↦ rw (h) (inr (ltb_ℤ→ge n p.partition_number h, refl), renumber-MovedUp n ps)
]

module _ (tr : Gettext) (d : Device) (x : Partition) where
  -- What is left after the deletion, in order and complete.
  abbrev pub LeavesLogicals : Bool → ℤ → List Partition → List Partition → Type 0
  LeavesLogicals new n kept ls =
      InOrder x.sector_start x.sector_end ls
      × CoversAll (grain d.sector_size) x.sector_start x.sector_end ls
      × Stays new n kept (allocated ls)

  moved_up-LeavesLogicals :
      (new : Bool) (n : ℤ) (kept ls : List Partition)
      → ShowsLogicals d x kept ls
      → LeavesLogicals new n kept (if new then ls else renumber n ls)
  moved_up-LeavesLogicals true n kept ls s = s
  moved_up-LeavesLogicals false n kept ls (o, c, a) = (
    renumber-InOrder n _ _ ls o,
    renumber-CoversAll n _ _ _ ls c,
    subst (MovedUp n kept) (sym (allocated-renumber n ls ∙ ap (renumber n) a))
        (renumber-MovedUp n kept),
  )

  -- Deleting a logical partition takes the one with its boundaries from the logicals of its extended
  -- partition and no other. If it was to be created only, the others stay as they are; if it is on the
  -- disk, those with higher numbers go down by one and keep their place. The space is shown, and the
  -- logicals stay in order.
  pub delete_visual-ShowsLogicals :
      (original p : Partition) (before after ps : List Partition) (e : ℕ)
      → pos 1 ≤ℤ grain d.sector_size
      → x.sector_start ≤ℤ x.sector_end
      → logicals x ≡ before ++ (p ∷ after)
      → InOrder x.sector_start x.sector_end (before ++ (p ∷ after))
      → original.inside_extended ≡ true
      → find_extended_partition ps ≡ some e
      → get_elem? ps e ≡ some x
      → SamePlace original p
      → (ls : List Partition) × (get_elem? (delete_visual tr d original ps) e
          ≡ some (with_logicals ls x))
        × LeavesLogicals
            (status_is original.status stat_new)
            original.partition_number
            (allocated before ++ allocated after)
            ls
  unfolding delete_visual
  delete_visual-ShowsLogicals original p before after ps e g k l o inside f h s =
      let i = length before in
      let found = ap (find_index original) l ∙ find_index-at _ _ original before after p o s in
      let rest = remove_original_and_adjacent_unallocated i (logicals x) in
      let filled = fill_extended tr d x rest in
      let kept =
        allocated-remove_original (logicals x) i
        ∙ ap (λ (ls : List Partition). allocated (erase ls i)) l
        ∙ ap allocated (erase-at p before after)
        ∙ allocated-append before after in
      let new = status_is original.status stat_new in
      (
        if new then filled else renumber original.partition_number filled,
        simp inside (
            rw (edit_logicals-some _ ps e f) (
              get_elem?-update_at e _ ps x h
              ∙ ap (λ (ls : List Partition). some (with_logicals ls x))
                  (edit_found-some original _ (logicals x) i found))),
        moved_up-LeavesLogicals new original.partition_number _ filled (
            rw (kept) at (
              insert_unallocated_tiles tr d.path d.sector_size true rest x.sector_start x.sector_end
                g k
                (remove_original-InOrder _ _ (logicals x) i
                  (subst (InOrder x.sector_start x.sector_end) (sym l) o)))),
      )

  -- Creating a logical partition, where it lies inside a shown one, puts it in the place of that one
  -- among the logicals, and shows the space that is left in the extended partition.
  pub insert_new-ShowsLogicals :
      (new : Partition) (ps : List Partition) (e i : ℕ)
      → pos 1 ≤ℤ grain d.sector_size
      → x.sector_start ≤ℤ x.sector_end
      → InOrder x.sector_start x.sector_end (logicals x)
      → new.inside_extended ≡ true
      → new.sector_start ≤ℤ new.sector_end
      → find_extended_partition ps ≡ some e
      → get_elem? ps e ≡ some x
      → find_index new (logicals x) ≡ some i
      → (ls : List Partition) × (get_elem? (insert_new tr d new ps) e ≡ some (with_logicals ls x))
        × ShowsLogicals d x (allocated (set (logicals x) i new)) ls
  unfolding insert_new replace_at
  insert_new-ShowsLogicals new ps e i g k o inside l f h j =
      let rest = set (logicals x) i new in
      (
        fill_extended tr d x rest,
        simp inside (
            rw (edit_logicals-some _ ps e f) (
              get_elem?-update_at e _ ps x h
              ∙ ap (λ (ls : List Partition). some (with_logicals ls x))
                  (edit_found-some new _ (logicals x) i j))),
        insert_unallocated_tiles tr d.path d.sector_size true rest x.sector_start x.sector_end g k
            (find_index-InOrder _ _ new (logicals x) i o l j),
      )
