-- ===== src/Operation/ResizeLaws.antt =====
-- Resizing and moving a partition (`OperationResizeMove::apply_normal_to_visual`,
-- src/OperationResizeMove.cc).
use gparted_android.Prelude.{
  ℕ, suc, ◌-◌, ◌≡◌, ◌⊎◌, refl, sym, subst, ap, ◌∙◌, true, false, &&_true, List, [], ◌∷◌, ◌++◌, All,
  length, set, ltb, if◌then◌else◌, Bool-cases, inl, inr, arith,
}
use gparted_android.Prelude.Int.{ℤ, pos, ◌+ℤ◌, ◌-ℤ◌, ◌<ℤ◌, ◌≤ℤ◌, int_laws}
use gparted_android.Utils.{Gettext}
use gparted_android.Partition.{Partition, type_is, type_unallocated}
use gparted_android.PartitionVector.{erase, replace_at}
use gparted_android.Device.{Device}
use gparted_android.Unallocated.Layout.{InOrder, allocated}
use gparted_android.Unallocated.Erasing.{unallocated_at, allocated-erase}
use gparted_android.Operation.Visual.{
  remove_next, unallocated_before, remove_adjacent_unallocated, resize_normal_visual,
}
use gparted_android.Operation.Place.{find_index-at, set-at, allocated-append}
use gparted_android.Operation.Search.{SamePlace, edit_found-some}
use gparted_android.Operation.VisualLaws.{Shows, IsUsable, fill_device-Shows}

allocated-remove_next : (ps : List Partition) (i : ℕ) → allocated (remove_next i ps) ≡ allocated ps
allocated-remove_next ps i = elim (Bool-cases (unallocated_at ps (suc i))) [
  | inl h ↦ rw h (allocated-erase ps (suc i) h)
  | inr h ↦ rw h refl
]

allocated-remove_adjacent :
    (ps : List Partition) (i : ℕ) → allocated (remove_adjacent_unallocated i ps) ≡ allocated ps
unfolding remove_adjacent_unallocated
allocated-remove_adjacent ps i = elim (Bool-cases (unallocated_before i (remove_next i ps))) [
  | inl h ↦ simp h (
      allocated-erase (remove_next i ps) (i - 1) (&&_true (ltb 0 i) _ h).1
      ∙ allocated-remove_next ps i)
  | inr h ↦ simp h (allocated-remove_next ps i)
]

-- The partitions before end before `s`; the last of them need not if it is unallocated space.
abbrev pub EndBefore : ℤ → List Partition → Type 0
EndBefore s [] = Unit
EndBefore s (p ∷ []) = (type_is p.type type_unallocated ≡ true) ⊎ (p.sector_end <ℤ s)
EndBefore s (p ∷ q ∷ ps) = (p.sector_end <ℤ s) × EndBefore s (q ∷ ps)

-- The partitions behind start behind `e`; the first of them need not if it is unallocated space.
abbrev pub StartBehind : ℤ → List Partition → Type 0
StartBehind e [] = Unit
StartBehind e (p ∷ ps) =
    ((type_is p.type type_unallocated ≡ true) ⊎ (e <ℤ p.sector_start))
    × All (λ q. e <ℤ q.sector_start) ps

-- The new boundaries lie on the device, and overlap nothing but the original partition and the
-- unallocated space next to it.
pub record Fits (d : Device) (before after : List Partition) (new : Partition) : Type 0 where
  pub from : pos 0 ≤ℤ new.sector_start
  pub order : new.sector_start ≤ℤ new.sector_end
  pub to : new.sector_end ≤ℤ d.length -ℤ pos 1
  pub behind_the_others : EndBefore new.sector_start before
  pub before_the_others : StartBehind new.sector_end after

abbrev without_first : List Partition → List Partition
without_first [] = []
without_first (p ∷ ps) = if type_is p.type type_unallocated then ps else p ∷ ps

abbrev without_last : List Partition → List Partition
without_last [] = []
without_last (p ∷ []) = if type_is p.type type_unallocated then [] else p ∷ []
without_last (p ∷ q ∷ ps) = p ∷ without_last (q ∷ ps)

remove_next-at :
    (n : Partition) (before after : List Partition)
    → remove_next (length before) (before ++ (n ∷ after)) ≡ before ++ (n ∷ without_first after)
unfolding erase
remove_next-at n [] [] = refl
remove_next-at n [] (p ∷ ps) = elim (Bool-cases (type_is p.type type_unallocated)) [
  | inl h ↦ rw h refl
  | inr h ↦ rw h refl
]
remove_next-at n (p ∷ before) after =
    let ps = before ++ (n ∷ after) in
    elim (Bool-cases (unallocated_at ps (suc (length before)))) [
      | inl h ↦ rw (h) (ap (◌∷◌ p) (rw h at (remove_next-at n before after)))
      | inr h ↦ rw (h) (ap (◌∷◌ p) (rw h at (remove_next-at n before after)))
    ]

-- The space before, which is the last of `p ∷ before`.
remove_last-at :
    (p : Partition) (before rest : List Partition)
    → (if unallocated_at ((p ∷ before) ++ rest) (length before)
        then erase ((p ∷ before) ++ rest) (length before)
        else (p ∷ before) ++ rest)
      ≡ without_last (p ∷ before) ++ rest
unfolding erase
remove_last-at p [] rest = elim (Bool-cases (type_is p.type type_unallocated)) [
  | inl h ↦ rw h refl
  | inr h ↦ rw h refl
]
remove_last-at p (q ∷ before) rest =
    let ps = (q ∷ before) ++ rest in
    elim (Bool-cases (unallocated_at ps (length before))) [
      | inl h ↦ rw (h) (ap (◌∷◌ p) (rw h at (remove_last-at q before rest)))
      | inr h ↦ rw (h) (ap (◌∷◌ p) (rw h at (remove_last-at q before rest)))
    ]

remove_adjacent-at :
    (n : Partition) (before after : List Partition)
    → remove_adjacent_unallocated (length before) (before ++ (n ∷ after))
      ≡ without_last before ++ (n ∷ without_first after)
unfolding remove_adjacent_unallocated
remove_adjacent-at n [] after = rw (remove_next-at n [] after) refl
remove_adjacent-at n (p ∷ before) after =
    let e : suc (length before) - 1 ≡ length before = omega arith in
    let t : ltb 0 (suc (length before)) ≡ true = ground arith in
    rw (remove_next-at n (p ∷ before) after)
      (simp (e, t) (remove_last-at p before (n ∷ without_first after)))

InOrder-raise :
    (lo e hi : ℤ) (ps : List Partition)
    → All (λ q. e <ℤ q.sector_start) ps
    → InOrder lo hi ps
    → InOrder (e +ℤ pos 1) hi ps
InOrder-raise lo e hi [] a o = tt
InOrder-raise lo e hi (p ∷ ps) a o = (omega (int_laws, a.0), o.1, o.2, o.3)

InOrder-without_first :
    (lo e hi : ℤ) (ps : List Partition)
    → StartBehind e ps
    → InOrder lo hi ps
    → InOrder (e +ℤ pos 1) hi (without_first ps)
InOrder-without_first lo e hi [] a o = tt
InOrder-without_first lo e hi (p ∷ ps) a o = elim (Bool-cases (type_is p.type type_unallocated)) [
  | inl h ↦ rw (h) (InOrder-raise (p.sector_end +ℤ pos 1) e hi ps a.1 o.3)
  | inr h ↦ rw (h) (elim a.0 [ inl u ↦ absurd (cc) | inr u ↦ (omega (int_laws, u), o.1, o.2, o.3) ])
]

InOrder-between :
    (lo hi : ℤ) (n p : Partition) (before after rest : List Partition)
    → lo ≤ℤ n.sector_start
    → n.sector_start ≤ℤ n.sector_end
    → n.sector_end ≤ℤ hi
    → EndBefore n.sector_start before
    → InOrder (n.sector_end +ℤ pos 1) hi rest
    → InOrder lo hi (before ++ (p ∷ after))
    → InOrder lo hi (without_last before ++ (n ∷ rest))
InOrder-between lo hi n p [] after rest a b c e r o = (a, b, c, r)
InOrder-between lo hi n p (q ∷ []) after rest a b c e r o =
    elim (Bool-cases (type_is q.type type_unallocated)) [
      | inl h ↦ rw (h) (a, b, c, r)
      | inr h ↦
          rw (h) (elim e [
            | inl u ↦ absurd (cc)
            | inr u ↦ (o.0, o.1, o.2, (omega (int_laws, u), b, c, r))
          ])
    ]
InOrder-between lo hi n p (q ∷ s ∷ before) after rest a b c e r o = (
  o.0,
  o.1,
  o.2,
  InOrder-between (q.sector_end +ℤ pos 1) hi n p (s ∷ before) after rest (omega (int_laws, e.0)) b c
      e.1 r o.3,
)

behind :
    (lo hi : ℤ) (before : List Partition) (p : Partition) (after : List Partition)
    → InOrder lo hi (before ++ (p ∷ after))
    → (l : ℤ) × InOrder l hi after
behind lo hi [] p after o = (p.sector_end +ℤ pos 1, o.3)
behind lo hi (q ∷ before) p after o = behind (q.sector_end +ℤ pos 1) hi before p after o.3

-- Resizing or moving a partition outside the extended partition, within its place and the unallocated
-- space next to it, puts the new one in the place of the one with the original boundaries, keeps every
-- other partition, and shows the space that is left.
pub resize_normal_visual-Shows :
    (tr : Gettext) (d : Device) (original new p : Partition) (before after : List Partition)
    → IsUsable d
    → original.inside_extended ≡ false
    → InOrder (pos 0) (d.length -ℤ pos 1) (before ++ (p ∷ after))
    → SamePlace original p
    → Fits d before after new
    → Shows d
        (allocated before ++ allocated (new ∷ after))
        (resize_normal_visual tr d original new (before ++ (p ∷ after)))
unfolding resize_normal_visual replace_at
resize_normal_visual-Shows tr d original new p before after u outside o s f =
    let ps = before ++ (p ∷ after) in
    let i = length before in
    let (l, b) = behind _ _ before p after o in
    let ordered =
      InOrder-between (pos 0) (d.length -ℤ pos 1) new p before after (without_first after) f.from
        f.order f.to f.behind_the_others
        (InOrder-without_first l new.sector_end _ after f.before_the_others b) o in
    let changed = ap (remove_adjacent_unallocated i) (set-at new p before after) in
    let kept =
      allocated-remove_adjacent (set ps i new) i
      ∙ ap allocated (set-at new p before after)
      ∙ allocated-append before (new ∷ after) in
    simp outside (
      rw (edit_found-some original _ ps i (find_index-at _ _ original before after p o s)) (
        rw (kept) at (
          fill_device-Shows tr d _ u (
            subst (InOrder (pos 0) (d.length -ℤ pos 1))
              (sym (changed ∙ remove_adjacent-at new before after)) ordered))))
