-- ===== src/Execute/Disk.antt =====
-- What the steps do to one partition and the file system in it: the reading of the history by which the
-- order of the steps is judged. It rests on what libparted and the tools document: a step that succeeds
-- does what it was asked (the boundaries are set as they are asked for, which holds if they are strict or
-- were calculated before); a change of the boundaries or a resize that fails has done so or nothing; an
-- external tool that fails to move a file system leaves it at its old place. A copy of blocks that fails
-- has written what it counts. If that is over a part of the old place, the file system is torn: parts of
-- it lie at either place, and it reaches over both. It is whole again when exactly the sectors that were
-- written over are copied back from where they had been copied to.
pub mod Rules
pub mod Boundaries
pub mod Resize
pub mod Room
pub mod Copying
pub mod Move
pub mod ResizeMove
use gparted_android.Prelude.{
  ◌≡◌, refl, Bool, true, false, ◌&&◌, Option, none, some, if◌then◌else◌, List, [], ◌∷◌,
}
use gparted_android.Prelude.Int.{ℤ, pos, ◌+ℤ◌, ◌-ℤ◌, ◌/ℤ◌, ◌≤ℤ◌, ltb_ℤ, leb_ℤ, eq_ℤ}
use gparted_android.Partition.{Attributes}
use gparted_android.Partition.Basic.{get_sector_length}
use gparted_android.Partition.Usage.{min_ℤ}
use gparted_android.Execute.Partition.{max_ℤ}
use gparted_android.Execute.{
  World, Step, Answer, succeeds, fails, fails_after_change, Event, did, reported, copied_only,
  History, Run, pure, ◌>>=◌, ◌&&&◌, is_ok, perform, when, branch, Report, reject, set_geometry,
  libparted_resize, resize_external, copy_blocks, external_move,
}

-- The boundaries of the partition, and where the file system lies.
pub record Disk : Type 0 where
  pub start : ℤ
  pub end : ℤ
  pub fs_start : ℤ
  pub fs_end : ℤ
  pub torn : Option (Attributes × Attributes × ℤ)

-- Whether a copy of `n` sectors, from `src` to a place `dst` of the same length, has written over a
-- sector of `src`: towards the end of the drive it begins with the last sector, else with the first.
abbrev pub reaches : Attributes → Attributes → ℤ → Bool
reaches src dst n =
    if ltb_ℤ src.sector_start dst.sector_start
    then leb_ℤ (dst.sector_end -ℤ n +ℤ pos 1) src.sector_end
    else leb_ℤ src.sector_start (dst.sector_start +ℤ n -ℤ pos 1)

-- Whether a copy between `from` and `to` takes all sectors of `src` that were written over, and no
-- other, from where they were copied to.
abbrev pub mends : Attributes → Attributes → ℤ → Attributes → Attributes → Bool
mends src dst n from to =
    if ltb_ℤ src.sector_start dst.sector_start
    then eq_ℤ to.sector_start (dst.sector_end -ℤ n +ℤ pos 1)
      && (eq_ℤ to.sector_end src.sector_end
          && (eq_ℤ (from.sector_start -ℤ dst.sector_start) (to.sector_start -ℤ src.sector_start)
              && eq_ℤ from.sector_end dst.sector_end))
    else eq_ℤ to.sector_start src.sector_start
      && (eq_ℤ to.sector_end (dst.sector_start +ℤ n -ℤ pos 1)
          && (eq_ℤ from.sector_start dst.sector_start
              && eq_ℤ (from.sector_end -ℤ dst.sector_end) (to.sector_end -ℤ src.sector_end)))

-- The file system reaches from the first of the two places to the end of the last.
abbrev pub tear : Attributes → Attributes → ℤ → Disk → Disk
tear src dst n d = record d {
  fs_start = min_ℤ dst.sector_start src.sector_start;
  fs_end = max_ℤ src.sector_end dst.sector_end;
  torn = some (src, dst, n);
}

abbrev pub mended : Attributes → Attributes → Disk → Disk
mended from to d = elim d.torn [
  | none ↦ d
  | some (src, dst, n) ↦
      if mends src dst n from to
      then record d { fs_start = src.sector_start; fs_end = src.sector_end; torn = none }
      else d
]

abbrev pub resized : Attributes → Disk → Disk
resized new d = record d { fs_end = d.fs_start +ℤ get_sector_length new -ℤ pos 1 }

abbrev pub with_boundaries : Attributes → Disk → Disk
with_boundaries new d = record d { start = new.sector_start; end = new.sector_end }

abbrev pub moved : Attributes → Disk → Disk
moved new d = record d { fs_start = new.sector_start; fs_end = new.sector_end }

abbrev pub effect : Step → Disk → Disk
effect (set_geometry old new) d = with_boundaries new d
effect (libparted_resize old new) d = resized new d
effect (resize_external new fill) d = resized new d
effect (copy_blocks src dst true) d = moved dst d
effect (copy_blocks from to false) d = mended from to d
effect (external_move old new) d = moved new d
effect _ d = d

abbrev pub effect_of_failure : Step → Disk → Disk
effect_of_failure (set_geometry old new) d = with_boundaries new d
effect_of_failure (libparted_resize old new) d = resized new d
effect_of_failure (resize_external new fill) d = resized new d
effect_of_failure _ d = d

abbrev pub answered : Step → Answer → Disk → Disk
answered s succeeds d = effect s d
answered s fails d = d
answered s fails_after_change d = effect_of_failure s d

abbrev pub apply : Event → Disk → Disk
apply (did s a) d = answered s a d
apply (reported r) d = d
apply (copied_only src dst total_done) d =
    let n = total_done /ℤ src.sector_size in if reaches src dst n then tear src dst n d else d

abbrev pub disk_after : Disk → History → Disk
disk_after d [] = d
disk_after d (e ∷ h) = apply e (disk_after d h)

-- The file system lies inside the partition.
pub record IsInside (d : Disk) : Type 0 where
  pub from : d.start ≤ℤ d.fs_start
  pub to : d.fs_end ≤ℤ d.end

-- It did so at every moment of the history.
abbrev pub AlwaysInside : Disk → History → Type 0
AlwaysInside d [] = IsInside d
AlwaysInside d (e ∷ h) = IsInside (disk_after d (e ∷ h)) × AlwaysInside d h

pub now_inside : (d : Disk) (h : History) → AlwaysInside d h → IsInside (disk_after d h)
now_inside d [] a = a
now_inside d (e ∷ h) a = a.0

-- From a disk with `P`, the run keeps the file system inside, and leaves a disk with `Q`.
pub record Triple {A : Type 0} (P : Disk → Type 0) (m : Run A) (Q : A → Disk → Type 0)
    : Type 0 where
  pub holds :
      (d : Disk) (h : History)
      → AlwaysInside d h
      → P (disk_after d h)
      → AlwaysInside d (m h).1 × Q (m h).0 (disk_after d (m h).1)

-- `Q` if the run returns true, `R` if it returns false.
abbrev pub Ends : (Disk → Type 0) → (Disk → Type 0) → Bool → Disk → Type 0
Ends Q R true d = Q d
Ends Q R false d = R d

abbrev pub Any : Disk → Type 0
Any d = Unit

pub bind-Triple :
    {A B : Type 0} {P : Disk → Type 0} {Q : A → Disk → Type 0} {R : B → Disk → Type 0} {m : Run A}
    {f : A → Run B}
    → Triple P m Q
    → ((a : A) → Triple (Q a) (f a) R)
    → Triple P (m >>= f) R
bind-Triple {m = m} t u = record {
  holds = λ d h k p. let (k', q) = t.holds d h k p in (u (m h).0).holds d (m h).1 k' q;
}

pub pure-Triple :
    {A : Type 0} {P : Disk → Type 0} {Q : A → Disk → Type 0} (a : A)
    → ((d : Disk) → IsInside d → P d → Q a d)
    → Triple P (pure a) Q
pure-Triple a i = record { holds = λ d h k p. (k, i (disk_after d h) (now_inside d h k) p) }

pub weaken-Triple :
    {A : Type 0} {P P' : Disk → Type 0} {Q Q' : A → Disk → Type 0} {m : Run A}
    → ((d : Disk) → P' d → P d)
    → ((a : A) (d : Disk) → Q a d → Q' a d)
    → Triple P m Q
    → Triple P' m Q'
weaken-Triple {m = m} i j t = record {
  holds =
      λ d h k p. let (k', q) = t.holds d h k (i _ p) in (k', j (m h).0 (disk_after d (m h).1) q);
}

pub and-Triple :
    {P Q R S : Disk → Type 0} {m n : Run Bool}
    → Triple P m (Ends Q S)
    → Triple Q n (Ends R S)
    → Triple P (m &&& n) (Ends R S)
and-Triple {Q = Q} {R = R} {S = S} {n = n} t u = bind-Triple t rest
  where
    rest : (b : Bool) → Triple (Ends Q S b) (when b n) (Ends R S)
    rest true = u
    rest false = pure-Triple false (λ d i s. s)

pub reject-Triple :
    {P : Disk → Type 0} {Q : Bool → Disk → Type 0} (r : Report)
    → ((d : Disk) → IsInside d → P d → Q false d)
    → Triple P (reject r) Q
reject-Triple r i = record {
  holds = λ d h k p. ((now_inside d h k, k), i (disk_after d h) (now_inside d h k) p);
}

pub branch-Triple :
    {A : Type 0} {P : Disk → Type 0} {Q : A → Disk → Type 0} (b : Bool) {m n : Run A}
    → (b ≡ true → Triple P m Q)
    → (b ≡ false → Triple P n Q)
    → Triple P (branch b m n) Q
branch-Triple true t u = t refl
branch-Triple false t u = u refl

-- A step, by its answers.
pub perform-Triple :
    {P : Disk → Type 0} {Q : Bool → Disk → Type 0} (w : World) (s : Step)
    → ((a : Answer) (d : Disk)
        → P d
        → IsInside d
        → IsInside (answered s a d) × Q (is_ok a) (answered s a d))
    → Triple P (perform w s) Q
unfolding perform
perform-Triple w s step = record {
  holds = λ d h k p.
      let (i, q) = step (w.answer h s) (disk_after d h) p (now_inside d h k) in ((i, k), q);
}
