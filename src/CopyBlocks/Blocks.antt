-- ===== src/CopyBlocks/Blocks.antt =====
-- One block between devices with sectors of one size (src/CopyBlocks.cc): where the offsets go, and
-- how many sectors are read and written.
use gparted_android.Prelude.{
  ℕ, zero, suc, ◌*◌, ◌<◌, ◌≡◌, refl, sym, ◌∙◌, ap, Bool, true, false, by_test, if◌then◌else◌, arith,
}
use gparted_android.Prelude.Int.{
  ℤ, pos, ◌+ℤ◌, ◌-ℤ◌, ◌/ℤ◌, ltb_ℤ, eq_of_parts, parts_of_eq, int_laws, ltb_ℤ→lt, ltb_ℤ→ge,
}
use gparted_android.CopyBlocks.{
  Ped, Job, Copying, move_offsets, move_backward, move_forward, num_blocks,
}
use gparted_android.CopyBlocks.Loop.{ap2}
use gparted_android.CopyBlocks.Steps.{
  signed, signed_parts, signed_zero, signed-div, llabs-signed, round_up,
}

-- The way of the offsets before the transfer, and after it.
abbrev pub before_by : Bool → ℕ → ℤ
before_by back k = if back then signed true k else pos 0

abbrev pub after_by : Bool → ℕ → ℤ
after_by back k = if back then pos 0 else signed false k

add_zero : (a : ℤ) → a ≡ a +ℤ pos 0
add_zero a = eq_of_parts _ _ (omega int_laws)

pub no_product : (k c : ℕ) → 0 < c → k * c ≡ 0 → k ≡ 0
no_product zero c h e = refl
no_product (suc k) c h e = absurd (omega (arith, h, e))

module _ (z : ℤ) (k c : ℕ) (positive : 0 < c) where
  none_negative : z ≡ signed true (k * c) → ltb_ℤ z (pos 0) ≡ false → k ≡ 0
  none_negative e x =
      no_product k c positive
        (omega (arith, ltb_ℤ→ge z (pos 0) x, parts_of_eq e, signed_parts true (k * c)))

  none_positive : z ≡ signed false (k * c) → ltb_ℤ (pos 0) z ≡ false → k ≡ 0
  none_positive e x =
      no_product k c positive
        (omega (arith, ltb_ℤ→ge (pos 0) z x, parts_of_eq e, signed_parts false (k * c)))

never_negative : (z : ℤ) (n : ℕ) → z ≡ signed false n → ltb_ℤ z (pos 0) ≡ true → ⊥
never_negative z n e x = omega (arith, ltb_ℤ→lt z (pos 0) x, parts_of_eq e, signed_parts false n)

never_positive : (z : ℤ) (n : ℕ) → z ≡ signed true n → ltb_ℤ (pos 0) z ≡ true → ⊥
never_positive z n e x = omega (arith, ltb_ℤ→lt (pos 0) z x, parts_of_eq e, signed_parts true n)

module _ (ped : Ped) (job : Job) where
  abbrev pub shift : ℤ → Copying (ped.World) → Copying (ped.World)
  shift a s = record s { offset_src = s.offset_src +ℤ a; offset_dst = s.offset_dst +ℤ a }

  shift_zero : (s : Copying (ped.World)) (a : ℤ) → a ≡ pos 0 → s ≡ shift a s
  shift_zero s a e = λ i. record s {
    offset_src = (add_zero s.offset_src ∙ ap (λ (z : ℤ). s.offset_src +ℤ z) (sym e)) i;
    offset_dst = (add_zero s.offset_dst ∙ ap (λ (z : ℤ). s.offset_dst +ℤ z) (sym e)) i;
  }

  module _ (c : ℕ) (src_size : ped.sector_size job.src_device ≡ pos c)
      (dst_size : ped.sector_size job.dst_device ≡ pos c) (positive : 0 < c) where
    move_offsets-shift :
        (s : Copying (ped.World)) (back : Bool) (k : ℕ)
        → s.blocksize ≡ signed back (k * c)
        → move_offsets ped job s ≡ shift (signed back k) s
    move_offsets-shift s back k e = λ i. record s {
      offset_src = s.offset_src +ℤ (ap2 ◌/ℤ◌ e src_size ∙ signed-div back k c positive) i;
      offset_dst = s.offset_dst +ℤ (ap2 ◌/ℤ◌ e dst_size ∙ signed-div back k c positive) i;
    }

    pub move_backward-shift :
        (s : Copying (ped.World)) (back : Bool) (k : ℕ)
        → s.blocksize ≡ signed back (k * c)
        → move_backward ped job s ≡ shift (before_by back k) s
    unfolding move_backward
    move_backward-shift s true k e =
        by_test (λ (t : Copying (ped.World)). t ≡ shift (signed true k) s)
          (ltb_ℤ s.blocksize (pos 0)) (move_offsets ped job s) s
          (λ x. move_offsets-shift s true k e)
          λ x.
            shift_zero s (signed true k) (
              ap (signed true) (none_negative s.blocksize k c positive e x)
              ∙ sym (signed_zero true))
    move_backward-shift s false k e =
        by_test (λ (t : Copying (ped.World)). t ≡ shift (pos 0) s) (ltb_ℤ s.blocksize (pos 0))
          (move_offsets ped job s) s (λ x. absurd (never_negative s.blocksize (k * c) e x))
          λ x. shift_zero s (pos 0) refl

    pub move_forward-shift :
        (s : Copying (ped.World)) (back : Bool) (k : ℕ)
        → s.blocksize ≡ signed back (k * c)
        → move_forward ped job s ≡ shift (after_by back k) s
    unfolding move_forward
    move_forward-shift s true k e =
        by_test (λ (t : Copying (ped.World)). t ≡ shift (pos 0) s) (ltb_ℤ (pos 0) s.blocksize)
          (move_offsets ped job s) s (λ x. absurd (never_positive s.blocksize (k * c) e x))
          λ x. shift_zero s (pos 0) refl
    move_forward-shift s false k e =
        by_test (λ (t : Copying (ped.World)). t ≡ shift (signed false k) s)
          (ltb_ℤ (pos 0) s.blocksize) (move_offsets ped job s) s
          (λ x. move_offsets-shift s false k e)
          λ x. shift_zero s (signed false k) (
            ap (signed false) (none_positive s.blocksize k c positive e x)
            ∙ sym (signed_zero false))

    -- The number of sectors of a block.
    pub num_blocks-src :
        (z : ℤ) (back : Bool) (k : ℕ)
        → z ≡ signed back (k * c)
        → num_blocks ped z (ped.sector_size job.src_device) ≡ pos k
    num_blocks-src z back k e =
        ap2 (num_blocks ped) e src_size
        ∙ ap (λ (n : ℕ). (pos n +ℤ (pos c -ℤ pos 1)) /ℤ pos c) (llabs-signed back (k * c))
        ∙ round_up k c positive

    pub num_blocks-dst :
        (z : ℤ) (back : Bool) (k : ℕ)
        → z ≡ signed back (k * c)
        → num_blocks ped z (ped.sector_size job.dst_device) ≡ pos k
    num_blocks-dst z back k e =
        ap2 (num_blocks ped) e dst_size
        ∙ ap (λ (n : ℕ). (pos n +ℤ (pos c -ℤ pos 1)) /ℤ pos c) (llabs-signed back (k * c))
        ∙ round_up k c positive
