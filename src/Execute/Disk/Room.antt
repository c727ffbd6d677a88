-- ===== src/Execute/Disk/Room.antt =====
-- The boundaries that `move` makes room with.
use gparted_android.Prelude.{◌≡◌, refl, sym, arith}
use gparted_android.Prelude.Int.{ℤ, pos, ◌≤ℤ◌, parts_of_eq}
use gparted_android.Partition.{Attributes}
use gparted_android.Partition.Basic.{get_sector_length}
use gparted_android.Execute.Disk.{Disk, IsInside, moved}
use gparted_android.Execute.Disk.Rules.{Within, IsPlaced, Has}
use gparted_android.Execute.Partition.{max_ℤ}
use gparted_android.Partition.Usage.{min_ℤ}
use gparted_android.Execute.Move.{all_space}
use gparted_android.Execute.Disk.Resize.{Begins, ends_equal, end_of_length}

-- The boundaries that hold both the old and the new ones.
pub record Spans (a p : Attributes) : Type 0 where
  pub from : a.sector_start ≤ℤ p.sector_start
  pub to : p.sector_end ≤ℤ a.sector_end

min_ℤ_le : (a b : ℤ) → (min_ℤ a b ≤ℤ a) × (min_ℤ a b ≤ℤ b)
min_ℤ_le a b = ground arith

max_ℤ_ge : (a b : ℤ) → (a ≤ℤ max_ℤ a b) × (b ≤ℤ max_ℤ a b)
max_ℤ_ge a b = ground arith

min_ℤ_pos : (a b : ℤ) → pos 0 ≤ℤ a → pos 0 ≤ℤ b → pos 0 ≤ℤ min_ℤ a b
min_ℤ_pos a b h k = ground arith

pub all_space-Spans :
    (old new : Attributes) → Spans (all_space old new) old × Spans (all_space old new) new
all_space-Spans old new =
    let (a, b) = min_ℤ_le new.sector_start old.sector_start in
    let (c, d) = max_ℤ_ge old.sector_end new.sector_end in
    (record { from = b; to = c }, record { from = a; to = d })

pub all_space-IsPlaced :
    (old new : Attributes) → IsPlaced old → IsPlaced new → IsPlaced (all_space old new)
all_space-IsPlaced old new h k =
    let (s, _) = all_space-Spans old new in
    let f = s.from in
    let t = s.to in
    record {
      start = min_ℤ_pos new.sector_start old.sector_start k.start h.start;
      order = omega (arith, f, t, h.order);
    }

pub Spans-Within :
    (a p : Attributes) (s e : ℤ) → Spans a p → Begins p s e → Within p s e × Within a s e
Spans-Within a p s e h (k, l) =
    let i = parts_of_eq k in
    let f = h.from in
    let t = h.to in ((omega (arith, i), l), (omega (arith, i, f), omega (arith, t, l)))

-- A file system of unchanged size, at the place of `new`.
pub move_to_same_start :
    (old new : Attributes)
    → IsPlaced old
    → IsPlaced new
    → get_sector_length old ≡ get_sector_length new
    → new.sector_start ≡ old.sector_start
    → old.sector_end ≡ new.sector_end
move_to_same_start old new p q l k =
    let m = parts_of_eq l in
    ends_equal old new (end_of_length old new p q (sym k) (omega (arith, m)))
      (end_of_length new old q p k (omega (arith, m)))

-- The file system is moved to the new place, or is taken to be at the old one.
pub moves_inside :
    (old new a : Attributes) (d : Disk)
    → Spans a new
    → Has a (Begins old) d
    → IsInside (moved new d) × Has a (Begins new) (moved new d)
moves_inside old new a d h x =
    let f = h.from in
    let t = h.to in
    let s = parts_of_eq x.start in
    let e = parts_of_eq x.end in
    (
      record { from = omega (arith, f, s); to = omega (arith, t, e) },
      record { start = x.start; end = x.end; fs = (refl, omega arith); whole = x.whole },
    )
