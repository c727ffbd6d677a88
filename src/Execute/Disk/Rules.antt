-- ===== src/Execute/Disk/Rules.antt =====
-- What the single steps keep and reach on the disk.
use gparted_android.Prelude.{◌≡◌, ◌⊎◌, none, refl, Bool, true, false}
use gparted_android.Prelude.Int.{ℤ, pos, ◌+ℤ◌, ◌-ℤ◌, ◌≤ℤ◌, int_laws, leb_ℤ, le→leb_ℤ}
use gparted_android.Partition.{Attributes}
use gparted_android.Partition.Basic.{get_sector_length}
use gparted_android.Execute.{
  World, Support, unsupported, gparted, libparted, external, Step, Answer, succeeds, fails,
  fails_after_change, perform, check_repair, libparted_resize, resize_external, is_ok, open_luks,
  not_smaller,
}
use gparted_android.Execute.Disk.{
  Disk, IsInside, Triple, Ends, answered, effect, effect_of_failure, resized, pure-Triple,
  branch-Triple, perform-Triple, reject-Triple,
}
use gparted_android.Execute.Filesystem.{
  resize_filesystem_implement, check_repair_filesystem, resize_by, check_by, is_open_luks,
  shrink_filesystem, maximize_filesystem, is_none,
}

-- Where a file system must lie to be inside the partition.
abbrev pub Within : Attributes → ℤ → ℤ → Type 0
Within p s e = (p.sector_start ≤ℤ s) × (e ≤ℤ p.sector_end)

-- Boundaries on the drive.
pub record IsPlaced (p : Attributes) : Type 0 where
  pub start : pos 0 ≤ℤ p.sector_start
  pub order : p.sector_start ≤ℤ p.sector_end

pub length-IsPlaced :
    (p : Attributes) → IsPlaced p → get_sector_length p ≡ p.sector_end -ℤ p.sector_start +ℤ pos 1
unfolding get_sector_length
length-IsPlaced p h =
    rw
      (
        le→leb_ℤ (pos 0) p.sector_start h.start,
        le→leb_ℤ (pos 0) p.sector_end (omega (int_laws, h.order, h.start)),
      )
      refl

-- The partition has the boundaries of `p`, and the file system is whole and where `I` says.
pub record Has (p : Attributes) (I : ℤ → ℤ → Type 0) (d : Disk) : Type 0 where
  pub start : d.start ≡ p.sector_start
  pub end : d.end ≡ p.sector_end
  pub fs : I d.fs_start d.fs_end
  pub whole : d.torn ≡ none

abbrev pub HasOneOf : Attributes → Attributes → (ℤ → ℤ → Type 0) → Disk → Type 0
HasOneOf p q I d = Has p I d ⊎ Has q I d

pub both-Ends : (P : Disk → Type 0) (b : Bool) (d : Disk) → P d → Ends P P b d
both-Ends P true d p = p
both-Ends P false d p = p

module _ (w : World) where
  -- A step that does nothing to the boundaries or to the place of the file system.
  pub quiet-Triple :
      {P : Disk → Type 0} (s : Step)
      → ((d : Disk) → effect s d ≡ d)
      → ((d : Disk) → effect_of_failure s d ≡ d)
      → Triple P (perform w s) (Ends P P)
  quiet-Triple {P = P} s e f = perform-Triple w s (λ a d p i. by_answer a d p i)
    where
      by_answer :
          (a : Answer) (d : Disk)
          → P d
          → IsInside d
          → IsInside (answered s a d) × Ends P P (is_ok a) (answered s a d)
      by_answer succeeds d p i = rw (e d) (i, p)
      by_answer fails d p i = (i, p)
      by_answer fails_after_change d p i = rw (f d) (i, p)

  check_by-Triple :
      {P : Disk → Type 0} (s : Support) (p : Attributes) → Triple P (check_by w s p) (Ends P P)
  check_by-Triple unsupported p = pure-Triple true (λ d i x. x)
  check_by-Triple gparted p = pure-Triple false (λ d i x. x)
  check_by-Triple libparted p = pure-Triple false (λ d i x. x)
  check_by-Triple external p =
      branch-Triple (w.has_object p.fstype)
        (λ h. quiet-Triple (check_repair p) (λ d. refl) (λ d. refl))
        (λ h. pure-Triple false (λ d i x. x))

  pub check_repair_filesystem-Triple :
      {P : Disk → Type 0} (p : Attributes) → Triple P (check_repair_filesystem w p) (Ends P P)
  unfolding check_repair_filesystem
  check_repair_filesystem-Triple {P = P} p =
      branch-Triple {Q = Ends P P} (is_open_luks p) (λ h. reject-Triple open_luks (λ d i x. x))
        (λ h.
          branch-Triple {Q = Ends P P} p.busy (λ k. pure-Triple true (λ d i x. x))
            (λ k. check_by-Triple (w.get_fs p.fstype).check p))

  -- A resize reaches `Q`, and leaves `R` if it fails, whether it has resized the file system or not.
  abbrev Resizes : Attributes → (Disk → Type 0) → (Disk → Type 0) → (Disk → Type 0) → Type 0
  Resizes new P Q R =
      (d : Disk)
      → P d
      → IsInside d
      → IsInside (resized new d) × Q (resized new d) × R (resized new d) × R d

  -- A step that changes the disk by `f`; if it fails, it has done so or nothing.
  pub changing-Triple :
      {P Q R : Disk → Type 0} (s : Step) (f : Disk → Disk)
      → ((d : Disk) → effect s d ≡ f d)
      → ((d : Disk) → effect_of_failure s d ≡ f d)
      → ((d : Disk) → P d → IsInside d → IsInside (f d) × Q (f d) × R (f d) × R d)
      → Triple P (perform w s) (Ends Q R)
  changing-Triple {P = P} {Q = Q} {R = R} s f e g r = perform-Triple w s by_answer
    where
      by_answer :
          (a : Answer) (d : Disk)
          → P d
          → IsInside d
          → IsInside (answered s a d) × Ends Q R (is_ok a) (answered s a d)
      by_answer succeeds d p i = let (j, q, _, _) = r d p i in rw (e d) (j, q)
      by_answer fails d p i = (i, (r d p i).3)
      by_answer fails_after_change d p i = let (j, _, x, _) = r d p i in rw (g d) (j, x)

  pub resize_by-Triple :
      {P Q R : Disk → Type 0} (s : Support) (old new : Attributes) (fill : Bool)
      → Resizes new P Q R
      → Triple P (resize_by w s old new fill) (Ends Q R)
  resize_by-Triple unsupported old new fill r = pure-Triple false (λ d i x. (r d x i).3)
  resize_by-Triple gparted old new fill r = pure-Triple false (λ d i x. (r d x i).3)
  resize_by-Triple libparted old new fill r =
      changing-Triple (libparted_resize old new) (resized new) (λ d. refl) (λ d. refl) r
  resize_by-Triple external old new fill r =
      branch-Triple (w.has_object new.fstype)
        (λ h. changing-Triple (resize_external new fill) (resized new) (λ d. refl) (λ d. refl) r)
        (λ h. pure-Triple false (λ d i x. (r d x i).3))

  pub resize_filesystem_implement-Triple :
      {P Q R : Disk → Type 0} (old new : Attributes)
      → Resizes new P Q R
      → Triple P (resize_filesystem_implement w old new) (Ends Q R)
  unfolding resize_filesystem_implement
  resize_filesystem_implement-Triple old new r = resize_by-Triple _ old new _ r

  pub shrink_filesystem-Triple :
      {P Q R : Disk → Type 0} (old new : Attributes)
      → Resizes new P Q R
      → Triple P (shrink_filesystem w old new) (Ends Q R)
  unfolding shrink_filesystem
  shrink_filesystem-Triple old new r =
      branch-Triple (is_open_luks old) (λ h. reject-Triple open_luks (λ d i x. (r d x i).3))
        (λ h.
          branch-Triple (leb_ℤ (get_sector_length old) (get_sector_length new))
            (λ k. reject-Triple not_smaller (λ d i x. (r d x i).3))
            (λ k. resize_filesystem_implement-Triple old new r))

  -- Growing the file system may be skipped, so `Q` has to hold before it too.
  pub maximize_filesystem-Triple :
      {P Q R : Disk → Type 0} (p : Attributes)
      → Resizes p P Q R
      → ((d : Disk) → P d → Q d)
      → Triple P (maximize_filesystem w p) (Ends Q R)
  unfolding maximize_filesystem
  maximize_filesystem-Triple p r s =
      branch-Triple (is_open_luks p) (λ h. reject-Triple open_luks (λ d i x. (r d x i).3))
        (λ h.
          branch-Triple (is_none (w.get_fs p.fstype).grow) (λ k. pure-Triple true (λ d i x. s d x))
            (λ k.
              branch-Triple (w.resize_disallowed p) (λ l. pure-Triple true (λ d i x. s d x))
                (λ l. resize_filesystem_implement-Triple p p r)))
