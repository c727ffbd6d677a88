-- ===== src/Execute/Disk/Copying.antt =====
-- Copying a file system to an overlapping place, and back where that fails (`move_filesystem` and
-- `rollback_move_filesystem`).
use gparted_android.Prelude.{
  ◌∷◌, ◌≡◌, refl, sym, ap, ◌∙◌, Bool, true, false, ◌&&◌, not, some, Bool-cases, inl, inr, arith,
}
use gparted_android.Prelude.Int.{
  ℤ, pos, pos_part, neg_part, ◌-ℤ◌, ◌/ℤ◌, ◌≤ℤ◌, int_laws, ltb_ℤ, eq_ℤ, eq_ℤ_refl, eq_of_parts,
  parts_of_eq, ltb_ℤ→ge,
}
use gparted_android.Partition.{Attributes}
use gparted_android.Partition.Basic.{get_sector_length, test_overlap}
use gparted_android.Partition.Usage.{min_ℤ}
use gparted_android.Execute.{
  World, Answer, succeeds, fails, fails_after_change, did, copied_only, History, ◌>>=◌, pure,
  branch, perform, copy_blocks, is_ok,
}
use gparted_android.Execute.Partition.{max_ℤ}
use gparted_android.Execute.Move.{
  move_blocks, note, rollback_move_filesystem, overwritten, copied, is_rollback_needed,
}
use gparted_android.Execute.Rollback.{
  IsMove, start_overwritten, end_overwritten, shift_start, shift_end,
}
use gparted_android.Execute.Disk.{
  Disk, IsInside, AlwaysInside, disk_after, apply, mended, tear, reaches, mends, Triple, Ends,
  now_inside, bind-Triple, pure-Triple, branch-Triple,
}
use gparted_android.Execute.Disk.Rules.{IsPlaced, length-IsPlaced, Has}
use gparted_android.Execute.Disk.Resize.{Begins}
use gparted_android.Execute.Disk.Room.{Spans, moves_inside}
use native.Mathlib.Nat.{zero-div}

-- What a copy of blocks counts, and that copying back succeeds: nothing can be said of a file system
-- for which that fails too.
pub record CopiesBack (w : World) : Type 0 where
  pub not_negative : (h : History) → pos 0 ≤ℤ w.bytes_done h
  pub at_most :
      (p q : Attributes) (a : Answer) (h : History)
      → IsPlaced p
      → w.bytes_done (did (copy_blocks p q true) a ∷ h) /ℤ p.sector_size ≤ℤ get_sector_length p
  pub succeeds_back :
      (p q : Attributes) (h : History) → w.answer h (copy_blocks p q false) ≡ succeeds

four : (a b c d : Bool) → a ≡ true → b ≡ true → c ≡ true → d ≡ true → (a && (b && (c && d))) ≡ true
four a b c d h k l m = rw (h, k, l, m) refl

same→eq_ℤ : (a b : ℤ) → a ≡ b → eq_ℤ a b ≡ true
same→eq_ℤ a b e = rw (e) (eq_ℤ_refl b)

module _ (src dst : Attributes) (m : IsMove src dst) (total : ℤ) where
  abbrev sectors : ℤ
  sectors = total /ℤ src.sector_size

  rollback_needed_lem : is_rollback_needed (overwritten src dst total) ≡ reaches src dst sectors
  unfolding overwritten
  rollback_needed_lem = elim (Bool-cases (ltb_ℤ src.sector_start dst.sector_start)) [
    | inl k ↦
        let e =
          start_overwritten src.sector_start src.sector_end dst.sector_start dst.sector_end sectors
            m.length in
        rw (k, e) refl
    | inr k ↦ let e = end_overwritten src.sector_start dst.sector_start sectors in rw (k, e) refl
  ]

  -- The rollback copies back what has to be.
  mends_lem : mends src dst sectors (copied src dst total) (overwritten src dst total) ≡ true
  unfolding copied overwritten
  mends_lem = elim (Bool-cases (ltb_ℤ src.sector_start dst.sector_start)) [
    | inl k ↦
        rw (k, m.sector_size)
          (four _ _ _ _
            (same→eq_ℤ _ _ (
              start_overwritten src.sector_start src.sector_end dst.sector_start dst.sector_end
                sectors m.length))
            (eq_ℤ_refl src.sector_end)
            (same→eq_ℤ _ _ (
              shift_start src.sector_start src.sector_end dst.sector_start dst.sector_end
                (sectors -ℤ pos 1) (dst.sector_start -ℤ src.sector_start) m.length))
            (eq_ℤ_refl dst.sector_end))
    | inr k ↦
        rw (k, m.sector_size)
          (four _ _ _ _ (eq_ℤ_refl src.sector_start)
            (same→eq_ℤ _ _ (end_overwritten src.sector_start dst.sector_start sectors))
            (eq_ℤ_refl dst.sector_start)
            (same→eq_ℤ _ _ (
              shift_end src.sector_start src.sector_end dst.sector_start dst.sector_end
                (sectors -ℤ pos 1) (src.sector_start -ℤ dst.sector_start) m.length)))
  ]

  -- Nothing copied has written over nothing.
  reaches_none : sectors ≡ pos 0 → reaches src dst sectors ≡ false
  reaches_none e = let l = parts_of_eq m.length in let z = parts_of_eq e in grind (int_laws, l, z)

  -- Places that do not overlap.
  reaches_apart :
      IsPlaced src
      → IsPlaced dst
      → sectors ≤ℤ get_sector_length src
      → test_overlap dst src ≡ false
      → reaches src dst sectors ≡ false
  unfolding test_overlap
  reaches_apart p q n o =
      let l = parts_of_eq m.length in
      let k = parts_of_eq (length-IsPlaced src p) in grind (int_laws, l, k, o, n, p.order, q.order)

pub zero_over : (b : ℤ) → pos 0 /ℤ b ≡ pos 0
unfolding ◌/ℤ◌
zero_over b = rw (zero-div (pos_part b), zero-div (neg_part b)) refl

div_zero : (a b : ℤ) → pos 0 ≤ℤ a → ltb_ℤ (pos 0) a ≡ false → a /ℤ b ≡ pos 0
div_zero a b h k =
    let l = ltb_ℤ→ge (pos 0) a k in
    ap (λ (z : ℤ). z /ℤ b) (eq_of_parts a (pos 0) (omega (arith, h, l))) ∙ zero_over b

hull :
    (a b s t : ℤ) (lo hi : ℤ)
    → lo ≤ℤ a
    → lo ≤ℤ b
    → s ≤ℤ hi
    → t ≤ℤ hi
    → (lo ≤ℤ min_ℤ b a) × (max_ℤ s t ≤ℤ hi)
hull a b s t lo hi h k l m = ground arith

module _ (w : World) (laws : CopiesBack w) (old new a : Attributes) (over_old : Spans a old)
    (over_new : Spans a new) (p : IsPlaced old) (q : IsPlaced new) (m : IsMove old new) where
  abbrev Moved : Bool → Disk → Type 0
  Moved = Ends (Has a (Begins new)) (Has a (Begins old))

  -- Parts of the file system lie at either place.
  record IsTorn (n : ℤ) (d : Disk) : Type 0 where
    start : d.start ≡ a.sector_start
    end : d.end ≡ a.sector_end
    torn : d.torn ≡ some (old, new, n)

  -- After a copy that has failed, whether it has written over the old place or not.
  abbrev Failed : ℤ → Bool → Disk → Type 0
  Failed n true d = IsTorn n d
  Failed n false d = Has a (Begins old) d

  tear-IsInside :
      (n : ℤ) (d : Disk)
      → Has a (Begins old) d
      → IsInside (tear old new n d) × IsTorn n (tear old new n d)
  tear-IsInside n d x =
      let (k, l) =
        hull old.sector_start new.sector_start old.sector_end new.sector_end a.sector_start
          a.sector_end over_old.from over_new.from over_old.to over_new.to in
      let s = parts_of_eq x.start in
      let e = parts_of_eq x.end in
      (
        record { from = omega (arith, k, s); to = omega (arith, l, e) },
        record { start = x.start; end = x.end; torn = refl },
      )

  noted :
      (total : ℤ) (d : Disk)
      → IsInside d
      → Has a (Begins old) d
      → IsInside (apply (copied_only old new total) d)
        × Failed
            (total /ℤ old.sector_size)
            (reaches old new (total /ℤ old.sector_size))
            (apply (copied_only old new total) d)
  noted total d i x = elim (Bool-cases (reaches old new (total /ℤ old.sector_size))) [
    | inl h ↦ rw (h) (tear-IsInside (total /ℤ old.sector_size) d x)
    | inr h ↦ rw (h) (i, x)
  ]

  mended-IsInside :
      (n : ℤ) (d : Disk) (from to : Attributes)
      → mends old new n from to ≡ true
      → IsTorn n d
      → IsInside (mended from to d) × Has a (Begins old) (mended from to d)
  mended-IsInside n d from to h x =
      let k = over_old.from in
      let l = over_old.to in
      let s = parts_of_eq x.start in
      let e = parts_of_eq x.end in
      rw (x.torn, h)
        (
          record { from = omega (arith, k, s); to = omega (arith, l, e) },
          record { start = x.start; end = x.end; fs = (refl, omega arith); whole = refl },
        )

  -- Copying back what was written over mends the file system.
  copied_back :
      (n : ℤ) (from to : Attributes)
      → mends old new n from to ≡ true
      → Triple (IsTorn n) (perform w (copy_blocks from to false)) (λ b. Has a (Begins old))
  unfolding perform
  copied_back n from to e = record {
    holds = λ d h k x.
        by_answer (w.answer h (copy_blocks from to false)) d h k x (laws.succeeds_back from to h);
  }
    where
      by_answer :
          (b : Answer) (d : Disk) (h : History)
          → AlwaysInside d h
          → IsTorn n (disk_after d h)
          → b ≡ succeeds
          → AlwaysInside d (did (copy_blocks from to false) b ∷ h)
            × Has a (Begins old) (disk_after d (did (copy_blocks from to false) b ∷ h))
      by_answer succeeds d h k x f =
          let (i, y) = mended-IsInside n (disk_after d h) from to e x in ((i, k), y)
      by_answer fails d h k x f = cc f
      by_answer fails_after_change d h k x f = cc f

  rollback-Triple :
      (total : ℤ) (r : Bool)
      → reaches old new (total /ℤ old.sector_size) ≡ r
      → pos 0 ≤ℤ total
      → Triple
          (Failed (total /ℤ old.sector_size) r)
          (rollback_move_filesystem w old new total)
          (λ b. Has a (Begins old))
  unfolding rollback_move_filesystem
  rollback-Triple total true e z =
      branch-Triple (ltb_ℤ (pos 0) total && is_rollback_needed (overwritten old new total))
        (λ h.
          copied_back (total /ℤ old.sector_size) (copied old new total) (overwritten old new total)
            (mends_lem old new m total))
        (λ h. absurd (needed h))
    where
      needed : (ltb_ℤ (pos 0) total && is_rollback_needed (overwritten old new total)) ≡ false → ⊥
      needed h = elim (Bool-cases (ltb_ℤ (pos 0) total)) [
        | inl k ↦ cc (rw (k, rollback_needed_lem old new m total, e) at h)
        | inr k ↦ cc (reaches_none old new m total (div_zero total old.sector_size z k), e)
      ]
  rollback-Triple total false e z =
      branch-Triple (ltb_ℤ (pos 0) total && is_rollback_needed (overwritten old new total))
        (λ h.
          absurd
            (needless (ltb_ℤ (pos 0) total) (rw (rollback_needed_lem old new m total, e) at h)))
        (λ h. pure-Triple true (λ d i x. x))
    where
      needless : (b : Bool) → (b && false) ≡ true → ⊥
      needless b h = ground (arith, h)

  after-Triple :
      (total : ℤ) (r : Bool)
      → reaches old new (total /ℤ old.sector_size) ≡ r
      → pos 0 ≤ℤ total
      → total /ℤ old.sector_size ≤ℤ get_sector_length old
      → Triple
          (Failed (total /ℤ old.sector_size) r)
          (branch
            (test_overlap new old)
            (rollback_move_filesystem w old new total >>= λ b. pure false)
            (pure false))
          Moved
  after-Triple total r e z l =
      branch-Triple {Q = Moved} (test_overlap new old)
        (λ h. bind-Triple (rollback-Triple total r e z) (λ b. pure-Triple false (λ d i x. x)))
        (λ h.
          pure-Triple false (λ d i x. apart r (sym e ∙ reaches_apart old new m total p q l h) d x))
    where
      apart :
          (b : Bool)
          → b ≡ false
          → (d : Disk) → Failed (total /ℤ old.sector_size) b d
          → Has a (Begins old) d
      apart true f d x = cc f
      apart false f d x = x

  -- A file system is moved by copying its blocks, or is whole at its old place.
  pub move_blocks-Triple : Triple (Has a (Begins old)) (move_blocks w old new) Moved
  unfolding perform
  move_blocks-Triple = record {
    holds = λ d h k x. by_answer (w.answer h (copy_blocks old new true)) d h k x;
  }
    where
      failed :
          (b : Answer) (d : Disk) (h : History)
          → AlwaysInside d (did (copy_blocks old new true) b ∷ h)
          → Has a (Begins old) (disk_after d (did (copy_blocks old new true) b ∷ h))
          → let h' = did (copy_blocks old new true) b ∷ h in
            let n = w.bytes_done h' in
            let r =
              branch
                (test_overlap new old)
                (rollback_move_filesystem w old new n >>= λ c. pure false)
                (pure false)
                (copied_only old new n ∷ h') in
            AlwaysInside d r.1 × Moved r.0 (disk_after d r.1)
      failed b d h k x =
          let h' = did (copy_blocks old new true) b ∷ h in
          let n = w.bytes_done h' in
          let (i, y) = noted n (disk_after d h') (now_inside d h' k) x in
          (after-Triple n (reaches old new (n /ℤ old.sector_size)) refl (laws.not_negative h')
              (laws.at_most old new b h p)).holds
            d (copied_only old new n ∷ h') (i, k) y

      by_answer :
          (b : Answer) (d : Disk) (h : History)
          → AlwaysInside d h
          → Has a (Begins old) (disk_after d h)
          → let h' = did (copy_blocks old new true) b ∷ h in
            let n = w.bytes_done h' in
            let r =
              (note (is_ok b) old new n >>= λ c.
              branch
                (not (is_ok b) && test_overlap new old)
                (rollback_move_filesystem w old new n >>= λ c. pure (is_ok b))
                (pure (is_ok b)))
                h' in
            AlwaysInside d r.1 × Moved r.0 (disk_after d r.1)
      by_answer succeeds d h k x =
          let (i, y) = moves_inside old new a (disk_after d h) over_new x in ((i, k), y)
      by_answer fails d h k x = failed fails d h (now_inside d h k, k) x
      by_answer fails_after_change d h k x = failed fails_after_change d h (now_inside d h k, k) x
