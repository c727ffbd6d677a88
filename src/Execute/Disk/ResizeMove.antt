-- ===== src/Execute/Disk/ResizeMove.antt =====
-- The whole of `resize_move` ends, and keeps the file system inside the boundaries.
use gparted_android.Prelude.{
  ℕ, suc, ◌≡◌, refl, sym, Bool, true, false, ◌||◌, not, Option, none, some, [], Bool-cases, inl,
  inr,
}
use gparted_android.Prelude.Int.{ℤ, pos, ◌≤ℤ◌, ltb_ℤ, eq_ℤ, eq_ℤ→eq}
use gparted_android.Partition.{Attributes, Partition, type_is, type_unpartitioned, type_extended}
use gparted_android.Partition.Basic.{get_sector_length}
use gparted_android.Execute.{World, Run, ◌>>=◌, start_changes}
use gparted_android.Execute.Disk.{
  Disk, Triple, Ends, Any, bind-Triple, pure-Triple, weaken-Triple, branch-Triple, reject-Triple,
  AlwaysInside, disk_after,
}
use gparted_android.Execute.Disk.Rules.{IsPlaced}
use gparted_android.Execute.Disk.Resize.{Placed, resize_plain-Triple, placed_inside}
use gparted_android.Execute.Disk.Copying.{CopiesBack}
use gparted_android.Execute.Disk.Move.{move-Triple}
use gparted_android.Execute.Filesystem.{is_swap, is_luks}
use gparted_android.Execute.Partition.{strictly}
use gparted_android.Execute.Resize.{resize}
use gparted_android.Execute.ResizeMove.{
  with_length, resize_move, resize_move_to, halfway, strictly_aligned, keeps_geometry, returned,
  and_then,
}
use gparted_android.Execute.Halfway.{
  length_positive, with_length-IsPlaced, length-strictly, IsDirect, halfway-IsBetween,
}

-- A partition with a plain file system of its own.
pub record IsPlain (p : Attributes) : Type 0 where
  pub placed : IsPlaced p
  pub partitioned : type_is p.type type_unpartitioned ≡ false
  pub not_extended : type_is p.type type_extended ≡ false
  pub no_luks : is_luks p.fstype ≡ false
  pub no_swap : is_swap p.fstype ≡ false

-- What a run of `resize_move` ends with. It does not run out of fuel.
abbrev pub Finishes : Attributes → Option Bool → Disk → Type 0
Finishes new none d = ⊥
Finishes new (some b) d = Ends (Placed new) Any b d

module _ (w : World) (laws : CopiesBack w) where
  pub resize-Triple :
      (old new : Partition)
      → IsPlain old.attributes
      → IsPlain new.attributes
      → old.sector_start ≡ new.sector_start
      → Triple (Placed old.attributes) (resize w old new) (Ends (Placed new.attributes) Any)
  unfolding resize
  resize-Triple old new h k e =
      branch-Triple {Q = Ends (Placed new.attributes) Any}
        (not (eq_ℤ old.sector_start new.sector_start))
        (λ l. reject-Triple start_changes (λ d i x. tt))
        (λ l.
          branch-Triple {Q = Ends (Placed new.attributes) Any} (is_luks new.fstype)
            (λ m. cc (m, k.no_luks))
            (λ m.
              resize_plain-Triple w old.attributes new.attributes k.no_swap k.partitioned h.placed
                k.placed e))

  returned-Triple :
      {P : Disk → Type 0} (new : Attributes) {m : Run Bool}
      → Triple P m (Ends (Placed new) Any)
      → Triple P (returned m) (Finishes new)
  returned-Triple new t = bind-Triple t (λ b. pure-Triple (some b) (λ d i x. x))

  -- One call that need not be split.
  direct-Triple :
      (again : Partition → Partition → Run (Option Bool)) (old new : Partition)
      → IsPlain old.attributes
      → IsPlain new.attributes
      → eq_ℤ new.sector_start old.sector_start
          || eq_ℤ (get_sector_length new.attributes) (get_sector_length old.attributes)
        ≡ true
      → new.sector_size ≡ old.sector_size
      → Triple
          (Placed old.attributes)
          (resize_move_to w again old (some new))
          (Finishes new.attributes)
  direct-Triple again old new h k e size =
      branch-Triple {Q = Finishes new.attributes} (type_is old.type type_extended)
        (λ l. cc (l, h.not_extended))
        (λ l.
          branch-Triple {Q = Finishes new.attributes} (eq_ℤ new.sector_start old.sector_start)
            (λ m.
              returned-Triple new.attributes
                (resize-Triple old new h k (sym (eq_ℤ→eq new.sector_start old.sector_start m))))
            (λ m.
              branch-Triple {Q = Finishes new.attributes}
                (eq_ℤ (get_sector_length new.attributes) (get_sector_length old.attributes))
                (λ o. returned-Triple new.attributes (
                  move-Triple w laws old.attributes new.attributes h.partitioned k.partitioned
                    h.placed k.placed size))
                (λ o. cc (rw (m, o) at e))))

  once-Triple :
      (n : ℕ) (old new : Partition)
      → IsPlain old.attributes
      → IsPlain new.attributes
      → keeps_geometry new.attributes ≡ true
      → eq_ℤ new.sector_start old.sector_start
          || eq_ℤ (get_sector_length new.attributes) (get_sector_length old.attributes)
        ≡ true
      → new.sector_size ≡ old.sector_size
      → Triple (Placed old.attributes) (resize_move w (suc n) old new) (Finishes new.attributes)
  unfolding resize_move
  once-Triple n old new h k g e size = rw (g) (direct-Triple (resize_move w n) old new h k e size)

with_length-IsPlain : (n : ℤ) (p : Attributes) → pos 1 ≤ℤ n → IsPlain p → IsPlain (with_length n p)
with_length-IsPlain n p l h = record {
  placed = with_length-IsPlaced n p l h.placed;
  partitioned = h.partitioned;
  not_extended = h.not_extended;
  no_luks = h.no_luks;
  no_swap = h.no_swap;
}

pub strictly-IsPlain : (p : Attributes) → IsPlain p → IsPlain (strictly p)
strictly-IsPlain p h = record {
  placed = record { start = h.placed.start; order = h.placed.order };
  partitioned = h.partitioned;
  not_extended = h.not_extended;
  no_luks = h.no_luks;
  no_swap = h.no_swap;
}

pub halfway-IsPlain :
    (old new : Partition)
    → IsPlain old.attributes
    → IsPlain new.attributes
    → IsPlain (halfway old new).attributes
halfway-IsPlain old new h k =
    elim (Bool-cases
      (ltb_ℤ (get_sector_length old.attributes) (get_sector_length new.attributes))) [
        | inl l ↦ rw (l) (
            with_length-IsPlain (get_sector_length old.attributes) new.attributes
              (length_positive old.attributes h.placed) k)
        | inr l ↦ rw (l) (
            with_length-IsPlain (get_sector_length new.attributes) old.attributes
              (length_positive new.attributes k.placed) h)
      ]

halfway-sector_size :
    (old new : Partition)
    → new.sector_size ≡ old.sector_size
    → ((halfway old new).sector_size ≡ old.sector_size)
      × (new.sector_size ≡ (halfway old new).sector_size)
halfway-sector_size old new e =
    elim (Bool-cases
      (ltb_ℤ (get_sector_length old.attributes) (get_sector_length new.attributes))) [
        | inl l ↦ rw (l) (e, refl)
        | inr l ↦ rw (l) (refl, e)
      ]

module _ (w : World) (laws : CopiesBack w) where
  two_steps-Triple :
      (n : ℕ) (old half new : Partition)
      → IsPlain old.attributes
      → IsPlain half.attributes
      → IsPlain new.attributes
      → keeps_geometry new.attributes ≡ true
      → IsDirect old half
      → IsDirect half new
      → half.sector_size ≡ old.sector_size
      → new.sector_size ≡ half.sector_size
      → Triple
          (Placed old.attributes)
          (resize_move w (suc n) old (strictly_aligned half) >>= λ r.
            and_then r (resize_move w (suc n) half new))
          (Finishes new.attributes)
  two_steps-Triple n old half new h i k g e f size size' =
      bind-Triple
        (once-Triple w laws n old (strictly_aligned half) h (strictly-IsPlain half.attributes i)
          refl (rw (length-strictly half.attributes) e) size)
        rest
    where
      put : (d : Disk) → Placed (strictly half.attributes) d → Placed half.attributes d
      put d x = record { start = x.start; end = x.end; fs = x.fs; whole = x.whole }

      rest :
          (r : Option Bool)
          → Triple
              (Finishes (strictly half.attributes) r)
              (and_then r (resize_move w (suc n) half new))
              (Finishes new.attributes)
      rest none = pure-Triple none (λ d j x. x)
      rest (some false) = pure-Triple (some false) (λ d j x. tt)
      rest (some true) =
          weaken-Triple put (λ b d x. x) (once-Triple w laws n half new i k g f size')

  pub resize_move-Triple :
      (n : ℕ) (old new : Partition)
      → IsPlain old.attributes
      → IsPlain new.attributes
      → keeps_geometry new.attributes ≡ true
      → new.sector_size ≡ old.sector_size
      → Triple
          (Placed old.attributes)
          (resize_move w (suc (suc n)) old new)
          (Finishes new.attributes)
  unfolding resize_move
  resize_move-Triple n old new h k g size = rw (g) by_action
    where
      by_length :
          Triple
            (Placed old.attributes)
            (resize_move w (suc n) old (strictly_aligned (halfway old new)) >>= λ r.
              and_then r (resize_move w (suc n) (halfway old new) new))
            (Finishes new.attributes)
      by_length =
          let s = halfway-IsBetween old new h.placed k.placed in
          let (to_half, from_half) = halfway-sector_size old new size in
          two_steps-Triple n old (halfway old new) new h (halfway-IsPlain old new h k) k g s.reached
            s.left to_half from_half

      by_action :
          Triple
            (Placed old.attributes)
            (resize_move_to w (resize_move w (suc n)) old (some new))
            (Finishes new.attributes)
      by_action =
          branch-Triple {Q = Finishes new.attributes} (type_is old.type type_extended)
            (λ l. cc (l, h.not_extended))
            (λ l.
              branch-Triple {Q = Finishes new.attributes} (eq_ℤ new.sector_start old.sector_start)
                (λ m. returned-Triple w laws new.attributes (
                  resize-Triple w laws old new h k
                    (sym (eq_ℤ→eq new.sector_start old.sector_start m))))
                (λ m.
                  branch-Triple {Q = Finishes new.attributes}
                    (eq_ℤ (get_sector_length new.attributes) (get_sector_length old.attributes))
                    (λ o. returned-Triple w laws new.attributes (
                      move-Triple w laws old.attributes new.attributes h.partitioned k.partitioned
                        h.placed k.placed size))
                    (λ o. by_length)))

-- `resize_move` of a plain partition (not a whole disk, extended, encrypted or swap), whose new
-- boundaries libparted need not adjust and whose sectors keep their size, ends within two recursive
-- calls. At every moment all parts of the file system lie inside the partition, whatever fails; and if
-- the result is true, the partition has the new boundaries and the file system is whole and begins at
-- their start. Copying blocks back succeeds, a copy counts what it has written, and an external tool
-- that fails to move the file system leaves it in place.
pub resize_move-Placed :
    (w : World) (n : ℕ) (old new : Partition) (d : Disk)
    → CopiesBack w
    → IsPlain old.attributes
    → IsPlain new.attributes
    → keeps_geometry new.attributes ≡ true
    → new.sector_size ≡ old.sector_size
    → Placed old.attributes d
    → AlwaysInside d (resize_move w (suc (suc n)) old new []).1
      × Finishes new.attributes
          (resize_move w (suc (suc n)) old new []).0
          (disk_after d (resize_move w (suc (suc n)) old new []).1)
resize_move-Placed w n old new d laws h k g size x =
    (resize_move-Triple w laws n old new h k g size).holds d [] (placed_inside old.attributes d x) x
