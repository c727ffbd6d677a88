-- ===== src/CopyBlocks/Steps.antt =====
-- The arithmetic of a copy in one direction (src/CopyBlocks.cc): counts with a sign, and their
-- quotients by the size of a sector.
use gparted_android.Prelude.{
  ℕ, zero, suc, ◌+◌, ◌-◌, ◌*◌, ◌/◌, ◌%◌, ◌<◌, ◌≡◌, refl, ap, ◌∙◌, Bool, true, false, arith,
}
use gparted_android.Prelude.Int.{
  ℤ, pos, pos_part, neg_part, ◌+ℤ◌, ◌-ℤ◌, ◌*ℤ◌, ◌/ℤ◌, ◌%ℤ◌, llabs, sub_ℕ, eq_of_parts, int_laws,
}
use native.Mathlib.Nat.{
  mul-div_cancel, mod-zero, mod-eq_of_lt, mod-lt, div-eq_of_lt, add-mul-div_right, mod-add-div',
  add-mul-mod_self_right, zero-div, div-zero, zero-mod, mul_assoc, add-mul, mul-lt-mul_of_pos_right,
}

-- The count, negated where the copy goes backwards.
unfoldable pub signed : Bool → ℕ → ℤ
signed false n = pos n
signed true n = sub_ℕ 0 n

pub signed_parts :
    (back : Bool) (n : ℕ)
    → (pos_part (signed back n) ≡ (elim back [ true ↦ 0 | false ↦ n ]))
      × (neg_part (signed back n) ≡ (elim back [ true ↦ n | false ↦ 0 ]))
unfolding signed
signed_parts false n = (refl, refl)
signed_parts true n = ground arith

pub llabs-signed : (back : Bool) (n : ℕ) → llabs (signed back n) ≡ n
llabs-signed false n = omega (arith, signed_parts false n)
llabs-signed true n = omega (arith, signed_parts true n)

pub signed-add : (back : Bool) (m n : ℕ) → signed back m +ℤ signed back n ≡ signed back (m + n)
signed-add false m n =
    eq_of_parts _ _
      (omega (int_laws, signed_parts false m, signed_parts false n, signed_parts false (m + n)))
signed-add true m n =
    eq_of_parts _ _
      (omega (int_laws, signed_parts true m, signed_parts true n, signed_parts true (m + n)))

pub signed_zero : (back : Bool) → pos 0 ≡ signed back 0
unfolding signed
signed_zero false = refl
signed_zero true = refl

-- `n -= 2 * n`.
pub negated : (n : ℕ) → pos n -ℤ pos 2 *ℤ pos n ≡ signed true n
unfolding ◌-ℤ◌ ◌*ℤ◌ signed
negated n = ground arith

pub signed-div : (back : Bool) (k c : ℕ) → 0 < c → signed back (k * c) /ℤ pos c ≡ signed back k
unfolding ◌/ℤ◌
signed-div false k c h = eq_of_parts _ _ (
    ground (
      arith,
      signed_parts false k,
      signed_parts false (k * c),
      mul-div_cancel k h,
      div-zero 0,
      div-zero (k * c),
      zero-div c,
    ))
signed-div true k c h = eq_of_parts _ _ (
    ground (
      arith,
      signed_parts true k,
      signed_parts true (k * c),
      mul-div_cancel k h,
      div-zero 0,
      div-zero (k * c),
      zero-div c,
    ))

small : (c : ℕ) → 0 < c → c - 1 < c
small c h = omega arith

-- A count of whole sectors is rounded up to itself.
pub round_up : (k c : ℕ) → 0 < c → (pos (k * c) +ℤ (pos c -ℤ pos 1)) /ℤ pos c ≡ pos k
unfolding ◌+ℤ◌ ◌-ℤ◌ ◌/ℤ◌
round_up k c h = ground (
  arith,
  add-mul-div_right (c - 1) k h,
  div-eq_of_lt (small c h),
  div-zero 0,
  zero-div c,
  zero-div 0,
)

pub mod-mul-mul : (n k c : ℕ) → 0 < c → n * c % (k * c) ≡ n % k * c
mod-mul-mul n zero c h =
    let z : 0 * c ≡ 0 = omega arith in
    omega (arith, ap (λ (t : ℕ). t * c) (mod-zero n), mod-zero (n * c), ap (λ (t : ℕ). n * c % t) z)
mod-mul-mul n (suc k) c h =
    let e : n * c ≡ n % suc k * c + n / suc k * (suc k * c) = omega (
      arith,
      ap (λ (t : ℕ). t * c) (mod-add-div' n (suc k)),
      mul_assoc (n / suc k) (suc k) c,
      add-mul (n % suc k) (n / suc k * suc k) c,
    ) in
    ap (λ (t : ℕ). t % (suc k * c)) e
    ∙ add-mul-mod_self_right (n % suc k * c) (n / suc k) (suc k * c)
    ∙ mod-eq_of_lt (mul-lt-mul_of_pos_right (mod-lt n (omega arith)) h)

pub remainder : (n k c : ℕ) → 0 < c → pos (n * c) %ℤ pos (k * c) ≡ pos (n % k * c)
unfolding ◌%ℤ◌
remainder n k c h = eq_of_parts _ _ (ground (arith, mod-mul-mul n k c h, zero-mod (k * c)))
