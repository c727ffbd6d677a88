-- ===== src/Execute/Disk/Resize.antt =====
-- Resizing and moving a partition keeps its file system inside the boundaries (`resize_plain`).
use gparted_android.Prelude.{[], ◌≡◌, refl, sym, ◌∙◌, Bool, true, false, arith}
use gparted_android.Prelude.Int.{
  ℤ, pos, ◌+ℤ◌, ◌-ℤ◌, ◌≤ℤ◌, int_laws, ltb_ℤ, eq_of_parts, parts_of_eq, ltb_ℤ→ge, ltb_ℤ→lt,
}
use gparted_android.Partition.{Attributes, type_is, type_unpartitioned}
use gparted_android.Partition.Basic.{get_sector_length}
use gparted_android.Execute.{World, Run, ◌&&&◌, open_luks}
use gparted_android.Execute.Disk.{
  AlwaysInside, disk_after, Disk, IsInside, Triple, Ends, Any, resized, pure-Triple, and-Triple,
  weaken-Triple, branch-Triple, reject-Triple,
}
use gparted_android.Execute.Disk.Rules.{
  Within, IsPlaced, length-IsPlaced, Has, check_repair_filesystem-Triple, shrink_filesystem-Triple,
  maximize_filesystem-Triple, HasOneOf,
}
use gparted_android.Execute.Disk.Boundaries.{resize_move_partition-Triple}
use gparted_android.Execute.Filesystem.{
  is_open_luks, is_swap, check_repair_filesystem, shrink_filesystem, maximize_filesystem,
}
use gparted_android.Execute.Partition.{resize_move_partition}
use gparted_android.Execute.Resize.{resize_plain}

-- The file system begins where the partition does, and does not reach over its end.
abbrev pub Begins : Attributes → ℤ → ℤ → Type 0
Begins p s e = (s ≡ p.sector_start) × (e ≤ℤ p.sector_end)

abbrev pub Placed : Attributes → Disk → Type 0
Placed p = Has p (Begins p)

-- The end of a file system that has been resized.
end_of_resized :
    (p : Attributes) (s : ℤ)
    → IsPlaced p
    → s ≡ p.sector_start
    → s +ℤ get_sector_length p -ℤ pos 1 ≡ p.sector_end
end_of_resized p s h e =
    let k = parts_of_eq (length-IsPlaced p h) in
    let l = parts_of_eq e in
    eq_of_parts (s +ℤ get_sector_length p -ℤ pos 1) p.sector_end (omega (int_laws, k, l))

-- Lengths and ends of partitions that begin at the same sector.
pub end_of_length :
    (p q : Attributes)
    → IsPlaced p
    → IsPlaced q
    → p.sector_start ≡ q.sector_start
    → get_sector_length p ≤ℤ get_sector_length q
    → p.sector_end ≤ℤ q.sector_end
end_of_length p q h k e l = omega (
  int_laws,
  parts_of_eq (length-IsPlaced p h),
  parts_of_eq (length-IsPlaced q k),
  parts_of_eq e,
  l,
)

pub ends_equal :
    (p q : Attributes)
    → p.sector_end ≤ℤ q.sector_end
    → q.sector_end ≤ℤ p.sector_end
    → p.sector_end ≡ q.sector_end
ends_equal p q a b = eq_of_parts p.sector_end q.sector_end (omega (arith, a, b))

-- The common part of two partitions that begin at the same sector.
abbrev Common : Attributes → Attributes → ℤ → ℤ → Type 0
Common p q s e = (s ≡ p.sector_start) × (e ≤ℤ p.sector_end) × (e ≤ℤ q.sector_end)

pub loosen :
    {P Q R : Disk → Type 0} {m : Run Bool} → Triple P m (Ends Q R) → Triple P m (Ends Q Any)
loosen {Q = Q} {R = R} t = weaken-Triple (λ d p. p) forget t
  where
    forget : (b : Bool) (d : Disk) → Ends Q R b d → Ends Q Any b d
    forget true d q = q
    forget false d r = tt

Common-Within :
    (old new : Attributes) (s e : ℤ)
    → old.sector_start ≡ new.sector_start
    → Common old new s e
    → Within old s e × Within new s e
Common-Within old new s e k (a, b, c) =
    let l = parts_of_eq a in
    let m = parts_of_eq k in ((omega (arith, l), b), (omega (arith, l, m), c))

common-Placed :
    (old new : Attributes) (d : Disk)
    → old.sector_start ≡ new.sector_start
    → Has new (Common old new) d
    → Placed new d
common-Placed old new d k x = record {
  start = x.start;
  end = x.end;
  fs = (x.fs.0 ∙ k, x.fs.2);
  whole = x.whole;
}

-- A file system that fills the new boundaries, in a partition that has room for them.
shrunk :
    (old new : Attributes) (d : Disk)
    → IsPlaced new
    → old.sector_start ≡ new.sector_start
    → new.sector_end ≤ℤ old.sector_end
    → Placed old d
    → IsInside (resized new d) × Has old (Common old new) (resized new d)
shrunk old new d q k l x =
    let e = end_of_resized new d.fs_start q (x.fs.0 ∙ k) in
    let m = parts_of_eq e in
    let o = parts_of_eq x.end in
    let i = parts_of_eq (x.start ∙ sym x.fs.0) in
    (
      record { from = omega (arith, i); to = omega (arith, m, o, l) },
      record {
        start = x.start;
        end = x.end;
        fs = (x.fs.0, omega (arith, m, l), omega (arith, m));
        whole = x.whole;
      },
    )

pub filled :
    (p : Attributes) (d : Disk)
    → IsPlaced p
    → Placed p d
    → IsInside (resized p d) × Placed p (resized p d)
filled p d h x =
    let (i, y) = shrunk p p d h refl (omega arith) x in (i, common-Placed p p (resized p d) refl y)

pub placed_inside : (p : Attributes) (d : Disk) → Placed p d → IsInside d
placed_inside p d x =
    let i = parts_of_eq (x.start ∙ sym x.fs.0) in
    let o = parts_of_eq x.end in record { from = omega (arith, i); to = omega (arith, o, x.fs.1) }

module _ (w : World) where
  boundaries-Triple :
      (old new : Attributes) (rollback : Bool)
      → type_is new.type type_unpartitioned ≡ false
      → IsPlaced old
      → IsPlaced new
      → old.sector_start ≡ new.sector_start
      → Triple
          (Has old (Common old new))
          (resize_move_partition w old new rollback)
          (Ends (Placed new) Any)
  boundaries-Triple old new rollback u p q k =
      weaken-Triple (λ d x. x) to_placed
        (resize_move_partition-Triple w {I = Common old new} old new rollback u p q
          (λ s e x. Common-Within old new s e k x))
    where
      to_placed :
          (b : Bool) (d : Disk)
          → Ends (Has new (Common old new)) (HasOneOf old new (Common old new)) b d
          → Ends (Placed new) Any b d
      to_placed true d x = common-Placed old new d k x
      to_placed false d x = tt

  -- The body for a partition that is neither open encryption nor linux swap.
  pub resize_plain-Triple :
      (old new : Attributes)
      → is_swap new.fstype ≡ false
      → type_is new.type type_unpartitioned ≡ false
      → IsPlaced old
      → IsPlaced new
      → old.sector_start ≡ new.sector_start
      → Triple (Placed old) (resize_plain w old new) (Ends (Placed new) Any)
  unfolding resize_plain
  resize_plain-Triple old new n u p q k =
      branch-Triple {Q = Done} (is_open_luks old) (λ h. reject-Triple open_luks (λ d i x. tt))
        (λ h.
          branch-Triple {Q = Done} (is_swap new.fstype) (λ m. cc (m, n))
            (λ m.
              branch-Triple {Q = Done} (ltb_ℤ (get_sector_length new) (get_sector_length old))
                shorter
                (λ l.
                  branch-Triple {Q = Done} (ltb_ℤ (get_sector_length old) (get_sector_length new))
                    longer (λ l'. pure-Triple true (λ d i x. same l l' d x)))))
    where
      Done : Bool → Disk → Type 0
      Done = Ends (Placed new) Any

      is_shorter :
          ltb_ℤ (get_sector_length new) (get_sector_length old) ≡ true
          → new.sector_end ≤ℤ old.sector_end
      is_shorter h =
          end_of_length new old q p (sym k)
            (omega (arith, ltb_ℤ→lt (get_sector_length new) (get_sector_length old) h))

      is_longer :
          ltb_ℤ (get_sector_length old) (get_sector_length new) ≡ true
          → old.sector_end ≤ℤ new.sector_end
      is_longer h =
          end_of_length old new p q k
            (omega (arith, ltb_ℤ→lt (get_sector_length old) (get_sector_length new) h))

      same :
          ltb_ℤ (get_sector_length new) (get_sector_length old) ≡ false
          → ltb_ℤ (get_sector_length old) (get_sector_length new) ≡ false
          → (d : Disk) → Placed old d
          → Placed new d
      same h l d x =
          let a =
            end_of_length old new p q k
              (ltb_ℤ→ge (get_sector_length new) (get_sector_length old) h) in
          let b =
            end_of_length new old q p (sym k)
              (ltb_ℤ→ge (get_sector_length old) (get_sector_length new) l) in
          record {
            start = x.start ∙ k;
            end = x.end ∙ ends_equal old new a b;
            fs = (x.fs.0 ∙ k, omega (arith, x.fs.1, a));
            whole = x.whole;
          }

      common :
          old.sector_end ≤ℤ new.sector_end → (d : Disk) → Placed old d → Has old (Common old new) d
      common l d x = record {
        start = x.start;
        end = x.end;
        fs = (x.fs.0, x.fs.1, omega (arith, x.fs.1, l));
        whole = x.whole;
      }

      shorter :
          ltb_ℤ (get_sector_length new) (get_sector_length old) ≡ true
          → Triple
              (Placed old)
              (check_repair_filesystem w new
                &&& shrink_filesystem w old new
                &&& resize_move_partition w old new false)
              Done
      shorter h =
          and-Triple
            (and-Triple (loosen (check_repair_filesystem-Triple w new)) (
              shrink_filesystem-Triple w old new
                (λ d x i. let (j, y) = shrunk old new d q k (is_shorter h) x in (j, y, tt, tt))))
            (boundaries-Triple old new false u p q k)

      longer :
          ltb_ℤ (get_sector_length old) (get_sector_length new) ≡ true
          → Triple
              (Placed old)
              (check_repair_filesystem w new
                &&& resize_move_partition w old new true
                &&& maximize_filesystem w new)
              Done
      longer h =
          and-Triple
            (and-Triple (loosen (check_repair_filesystem-Triple w new)) (
              weaken-Triple (common (is_longer h)) (λ b d x. x)
                (boundaries-Triple old new true u p q k)))
            (maximize_filesystem-Triple w new
              (λ d x i. let (j, y) = filled new d q x in (j, y, tt, tt)) (λ d x. x))

-- `resize_plain` of a partition that is neither a whole disk nor linux swap, from the same start: at
-- every moment the file system lies inside the partition, whatever fails; and if the result is true, the
-- partition has the new boundaries and the file system begins at their start. Both boundaries lie on
-- the drive.
pub resize_plain-Placed :
    (w : World) (old new : Attributes) (d : Disk)
    → is_swap new.fstype ≡ false
    → type_is new.type type_unpartitioned ≡ false
    → IsPlaced old
    → IsPlaced new
    → old.sector_start ≡ new.sector_start
    → Placed old d
    → AlwaysInside d (resize_plain w old new []).1
      × Ends
          (Placed new)
          Any
          (resize_plain w old new []).0
          (disk_after d (resize_plain w old new []).1)
resize_plain-Placed w old new d n u p q e x =
    (resize_plain-Triple w old new n u p q e).holds d [] (placed_inside old d x) x
