-- ===== src/CopyBlocks/Pieces.antt =====
-- A whole piece of a copy adjoins what was copied before (src/CopyBlocks.cc).
use gparted_android.Prelude.{
  ℕ, zero, suc, ◌-◌, ◌*◌, ◌%◌, ◌≤◌, ◌<◌, ◌≡◌, ◌⊎◌, inl, inr, refl, sym, ◌∙◌, ap, subst, Bool, true,
  false, ltb, Bool-cases, some, if◌then◌else◌, arith,
}
use gparted_android.Prelude.Int.{
  ℤ, pos, ◌+ℤ◌, ◌-ℤ◌, ◌/ℤ◌, llabs, ltb_ℤ, lt→ltb_ℤ, ge→ltb_ℤ, ltb_ℤ→lt, ltb_ℤ→ge, eq_of_parts,
  int_laws,
}
use gparted_android.CopyBlocks.{Ped, IsLawful, Job, User, Copying, copy}
use gparted_android.CopyBlocks.Steps.{signed, signed-div, round_up, mod-mul-mul}
use gparted_android.CopyBlocks.Loop.{ap2, Keeps}
use gparted_android.CopyBlocks.Whole.{Ended, copy-Ended, begin_src, begin_dst, clip, start_cancel}
use gparted_android.CopyBlocks.Moves.{Copied}
use gparted_android.CopyBlocks.Overlap.{Away, Any, Progress, Keeps-sectors, low, high, edge}
use native.Mathlib.Nat.{mul-le-mul_right, mul-lt-mul_of_pos_right, le_of_mul-le-mul_right}

ltb→lt : (n k : ℕ) → ltb n k ≡ true → n < k
ltb→lt n k e = ground (arith, e)

ltb→ge : (n k : ℕ) → ltb n k ≡ false → k ≤ n
ltb→ge n k e = ground (arith, e)

clip-mul : (n k c : ℕ) → 0 < c → clip (n * c) (k * c) ≡ clip n k * c
clip-mul n k c h = elim (Bool-cases (ltb n k)) [
  | inl e ↦ ground (arith, e, mul-lt-mul_of_pos_right (ltb→lt n k e) h)
  | inr e ↦ ground (arith, e, mul-le-mul_right c (ltb→ge n k e))
]

pub clip-pos : (n k : ℕ) → 0 < n → 0 < k → 0 < clip n k
clip-pos n k h h' = ground arith

pub no_zero : (a b : ℕ) → 0 < a → 0 < b → 0 < a * b
no_zero zero b h h' = absurd (omega (arith, h))
no_zero (suc a) b h h' = omega (arith, h')

-- Two places are in the same order at the same distance from their starts.
order_kept : (s d : ℤ) (x : ℕ) → ltb_ℤ s d ≡ ltb_ℤ (s +ℤ pos x) (d +ℤ pos x)
order_kept s d x = elim (Bool-cases (ltb_ℤ s d)) [
  | inl e ↦ e ∙ sym (lt→ltb_ℤ (s +ℤ pos x) (d +ℤ pos x) (omega (int_laws, ltb_ℤ→lt s d e)))
  | inr e ↦ e ∙ sym (ge→ltb_ℤ (s +ℤ pos x) (d +ℤ pos x) (omega (int_laws, ltb_ℤ→ge s d e)))
]

away :
    (back : Bool) (s d : ℤ) (lo n : ℕ)
    → back ≡ ltb_ℤ s d
    → (back ≡ true → n ≤ lo)
    → Away back s d lo n
away true s d lo n e h = (omega (arith, ltb_ℤ→lt s d (sym e)), h refl)
away false s d lo n e h = ltb_ℤ→ge s d (sym e)

pub pos-div : (n c : ℕ) → 0 < c → pos (n * c) /ℤ pos c ≡ pos n
unfolding signed
pos-div n c h = signed-div false n c h

-- Where a piece of `n` sectors begins that adjoins what was copied.
abbrev pub piece_at : Bool → ℕ → ℕ → ℕ → ℕ
piece_at back lo hi n = if back then lo - n else hi

begin_at :
    (back : Bool) (lo hi n : ℕ) (s : ℤ)
    → (back ≡ true → n ≤ lo)
    → (if back then s +ℤ pos (piece_at back lo hi n) +ℤ pos n else s +ℤ pos (piece_at back lo hi n))
      ≡ s +ℤ pos (edge back lo hi 0)
begin_at true lo hi n s h = eq_of_parts _ _ (omega (int_laws, h refl))
begin_at false lo hi n s h = eq_of_parts _ _ (omega int_laws)

module _ (ped : Ped) (lawful : IsLawful ped) (user : User) (job : Job) (c lo hi n k : ℕ)
    (src_size : ped.sector_size job.src_device ≡ pos c)
    (dst_size : ped.sector_size job.dst_device ≡ pos c) (positive : 0 < c)
    (readable : (w : ped.World) (o count : ℤ)
      → (b : ped.Buffer) × (ped.read w job.src_device o count ≡ some b))
    (s d : ℤ) (start w : ped.World) (fits : lo ≤ hi) (back : Bool) (chosen : back ≡ ltb_ℤ s d)
    (room : back ≡ true → n ≤ lo) (length : job.length ≡ pos (n * c)) (some_sector : 0 < n)
    (some_size : 0 < k) (before : Copied ped job.src_device job.dst_device s d start w lo hi) where
  abbrev Goes : ℕ → ped.World → Bool → ℤ → ℤ → Type 0
  Goes = Progress ped job.src_device job.dst_device c lo hi back s d start

  nothing_yet :
      (c : Bool) → Copied ped job.src_device job.dst_device s d start w (low c lo 0) (high c hi 0)
  nothing_yet true =
      subst (λ (j : ℕ). Copied ped job.src_device job.dst_device s d start w j hi) (omega arith)
        before
  nothing_yet false =
      subst (λ (j : ℕ). Copied ped job.src_device job.dst_device s d start w lo j) (omega arith)
        before

  begun :
      (blocks : ℕ)
      → Goes 0 w
          (start_cancel user job blocks)
          (begin_src ped job back (s +ℤ pos (piece_at back lo hi n)))
          (begin_dst ped job back (d +ℤ pos (piece_at back lo hi n)))
  begun blocks = record {
    sectors = 0;
    size = omega arith;
    src_at =
        ap
          (λ (z : ℤ).
            if back
            then s +ℤ pos (piece_at back lo hi n) +ℤ z
            else s +ℤ pos (piece_at back lo hi n))
          (ap2 ◌/ℤ◌ length src_size ∙ pos-div n c positive)
        ∙ begin_at back lo hi n s room;
    dst_at =
        ap
          (λ (z : ℤ).
            if back
            then d +ℤ pos (piece_at back lo hi n) +ℤ z
            else d +ℤ pos (piece_at back lo hi n))
          (ap2 (λ (z y : ℤ). (z +ℤ (y -ℤ pos 1)) /ℤ y) length dst_size ∙ round_up n c positive)
        ∙ begin_at back lo hi n d room;
    copied = nothing_yet back;
  }

  abbrev pub Piece : Copying (ped.World) → Type 0
  Piece t =
      (t.success ≡ false)
      ⊎ ((t.success ≡ true)
          × (llabs t.done ≡ n * c)
          × Copied ped job.src_device job.dst_device s d start t.world (low back lo n)
              (high back hi n))

  Ended-Piece :
      (b : ℕ) (t : Copying (ped.World)) → Ended ped user job back (n * c) b Any Goes t → Piece t
  Ended-Piece b t (inl (f, m)) = inl f
  Ended-Piece b t (inr (g, e, p)) =
      let le : p.sectors * c ≤ n * c = omega (arith, p.size) in
      let ge : n * c ≤ p.sectors * c = omega (arith, p.size) in
      let all : p.sectors ≡ n =
        omega (arith, le_of_mul-le-mul_right le positive, le_of_mul-le-mul_right ge positive) in
      inr (
        g,
        e,
        subst
            (λ (j : ℕ).
              Copied ped job.src_device job.dst_device s d start t.world (low back lo j)
                (high back hi j))
            all p.copied,
      )

  keeps : (m : ℕ) → Keeps ped user job back (n * c) (clip n k * c) Any Goes (m * c)
  keeps m =
      Keeps-sectors ped lawful user job c lo hi n src_size dst_size positive readable s d start fits
        (clip n k * c) back (away back s d lo n chosen room) m

  -- The copy of a piece ends; where it succeeds, its bytes are counted and its sectors adjoin what was
  -- copied.
  pub copy-Piece :
      (blocks : ℕ) (total : ℤ)
      → (t : Copying (ped.World)) × (copy ped user job w blocks
            (s +ℤ pos (piece_at back lo hi n))
            (d +ℤ pos (piece_at back lo hi n))
            (pos (k * c))
            total
          ≡ some (t, total +ℤ pos (llabs t.done)))
        × Piece t
  copy-Piece blocks total =
      let some_byte : 0 < clip n k * c =
        no_zero (clip n k) c (clip-pos n k some_sector some_size) positive in
      let (t, run, end) =
        copy-Ended ped user job back (n * c) (clip n k * c) Any Goes w blocks
          (s +ℤ pos (piece_at back lo hi n)) (d +ℤ pos (piece_at back lo hi n)) (k * c) total length
          some_byte (sym (clip-mul n k c positive))
          (chosen ∙ order_kept s d (piece_at back lo hi n)) (keeps (clip n k))
          (subst (Keeps ped user job back (n * c) (clip n k * c) Any Goes)
            (sym (mod-mul-mul n (clip n k) c positive)) (keeps (n % clip n k)))
          (λ x. tt) (begun blocks) in
      (t, run, Ended-Piece (clip n k * c) t end)
