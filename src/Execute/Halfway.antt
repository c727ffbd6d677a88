-- ===== src/Execute/Halfway.antt =====
-- The partition between a move and a resize (`resize_move`).
use gparted_android.Prelude.{◌≡◌, refl, sym, Bool, true, false, ◌||◌, Bool-cases, inl, inr}
use gparted_android.Prelude.Int.{
  ℤ, pos, ◌≤ℤ◌, int_laws, ltb_ℤ, eq_ℤ, eq_of_parts, parts_of_eq, eq_ℤ_refl,
}
use gparted_android.Partition.{Attributes, Partition, with_attributes}
use gparted_android.Partition.Basic.{get_sector_length}
use gparted_android.Execute.Disk.Rules.{IsPlaced, length-IsPlaced}
use gparted_android.Execute.Partition.{strictly}
use gparted_android.Execute.ResizeMove.{with_length, halfway}

pub length_positive : (p : Attributes) → IsPlaced p → pos 1 ≤ℤ get_sector_length p
length_positive p h =
    let e = parts_of_eq (length-IsPlaced p h) in let o = h.order in omega (int_laws, e, o)

pub with_length-IsPlaced :
    (n : ℤ) (p : Attributes) → pos 1 ≤ℤ n → IsPlaced p → IsPlaced (with_length n p)
with_length-IsPlaced n p l h = record { start = h.start; order = omega (int_laws, l) }

pub length-with_length :
    (n : ℤ) (p : Attributes) → pos 1 ≤ℤ n → IsPlaced p → get_sector_length (with_length n p) ≡ n
length-with_length n p l h =
    let e = parts_of_eq (length-IsPlaced (with_length n p) (with_length-IsPlaced n p l h)) in
    eq_of_parts (get_sector_length (with_length n p)) n (omega (int_laws, e))

pub length-strictly : (p : Attributes) → get_sector_length (strictly p) ≡ get_sector_length p
unfolding get_sector_length
length-strictly p = refl

-- A step that needs no other between: the same start, or the same length.
abbrev pub IsDirect : Partition → Partition → Type 0
IsDirect old new =
    eq_ℤ new.sector_start old.sector_start
      || eq_ℤ (get_sector_length new.attributes) (get_sector_length old.attributes)
    ≡ true

pub same_start-IsDirect :
    (old new : Partition) → new.sector_start ≡ old.sector_start → IsDirect old new
same_start-IsDirect old new e = rw (e, eq_ℤ_refl old.sector_start) refl

pub same_length-IsDirect :
    (old new : Partition)
    → get_sector_length new.attributes ≡ get_sector_length old.attributes
    → IsDirect old new
same_length-IsDirect old new e =
    rw (e, eq_ℤ_refl (get_sector_length old.attributes))
      (or_true (eq_ℤ new.sector_start old.sector_start))
  where
    or_true : (b : Bool) → b || true ≡ true
    or_true true = refl
    or_true false = refl

-- The partition between the old and the new one is reached and left directly.
pub record IsBetween (old new half : Partition) : Type 0 where
  pub reached : IsDirect old half
  pub left : IsDirect half new

grown-IsBetween :
    (old new : Partition)
    → IsPlaced old.attributes
    → IsPlaced new.attributes
    → IsBetween old new
        (with_attributes (with_length (get_sector_length old.attributes) new.attributes) new)
grown-IsBetween old new h k =
    let half : Partition =
      with_attributes (with_length (get_sector_length old.attributes) new.attributes) new in
    record {
      reached = same_length-IsDirect old half (
          length-with_length (get_sector_length old.attributes) new.attributes
            (length_positive old.attributes h) k);
      left = same_start-IsDirect half new refl;
    }

cut-IsBetween :
    (old new : Partition)
    → IsPlaced old.attributes
    → IsPlaced new.attributes
    → IsBetween old new
        (with_attributes (with_length (get_sector_length new.attributes) old.attributes) old)
cut-IsBetween old new h k =
    let half : Partition =
      with_attributes (with_length (get_sector_length new.attributes) old.attributes) old in
    record {
      reached = same_start-IsDirect old half refl;
      left = same_length-IsDirect half new (
          sym (
            length-with_length (get_sector_length new.attributes) old.attributes
              (length_positive new.attributes k) h));
    }

pub halfway-IsBetween :
    (old new : Partition)
    → IsPlaced old.attributes
    → IsPlaced new.attributes
    → IsBetween old new (halfway old new)
halfway-IsBetween old new h k =
    elim (Bool-cases
      (ltb_ℤ (get_sector_length old.attributes) (get_sector_length new.attributes))) [
        | inl l ↦ rw (l) (grown-IsBetween old new h k)
        | inr l ↦ rw (l) (cut-IsBetween old new h k)
      ]
