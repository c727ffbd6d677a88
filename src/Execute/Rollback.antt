-- ===== src/Execute/Rollback.antt =====
-- What `rollback_move_filesystem` copies back (src/GParted_Core.cc).
use gparted_android.Prelude.{
  ◌≡◌, Bool, true, false, ◌&&◌, if◌then◌else◌, Bool-cases, inl, inr, arith,
}
use gparted_android.Prelude.Int.{
  ℤ, pos, ◌+ℤ◌, ◌-ℤ◌, ◌/ℤ◌, ◌≤ℤ◌, int_laws, ltb_ℤ, leb_ℤ, eq_of_parts, parts_of_eq, ltb_ℤ→lt,
  ltb_ℤ→ge,
}
use gparted_android.Partition.{Attributes}
use gparted_android.Execute.Move.{overwritten, copied}

-- Whether a sector belongs to a partition.
abbrev pub has_sector : Attributes → ℤ → Bool
has_sector p x = leb_ℤ p.sector_start x && leb_ℤ x p.sector_end

-- The sectors of `dst` that the copying of its first `n` sectors has written: to the right it begins at
-- the end, to the left at the start.
abbrev pub is_written : Attributes → Attributes → ℤ → ℤ → Bool
is_written src dst n x =
    if ltb_ℤ src.sector_start dst.sector_start
    then leb_ℤ (dst.sector_end -ℤ n +ℤ pos 1) x && leb_ℤ x dst.sector_end
    else leb_ℤ dst.sector_start x && leb_ℤ x (dst.sector_start +ℤ n -ℤ pos 1)

-- A move of a file system: the two places have the same length and sectors of the same size.
pub record IsMove (src dst : Attributes) : Type 0 where
  pub length : dst.sector_end -ℤ dst.sector_start ≡ src.sector_end -ℤ src.sector_start
  pub sector_size : dst.sector_size ≡ src.sector_size

meet_right :
    (s e b f x : ℤ)
    → s ≤ℤ b
    → e ≤ℤ f
    → (leb_ℤ b x && leb_ℤ x e) ≡ (leb_ℤ s x && leb_ℤ x e && (leb_ℤ b x && leb_ℤ x f))
meet_right s e b f x h k = ground arith

meet_left :
    (s e b f x : ℤ)
    → b ≤ℤ s
    → f ≤ℤ e
    → (leb_ℤ s x && leb_ℤ x f) ≡ (leb_ℤ s x && leb_ℤ x e && (leb_ℤ b x && leb_ℤ x f))
meet_left s e b f x h k = ground arith

pub start_overwritten :
    (a b c d n : ℤ) → d -ℤ c ≡ b -ℤ a → b -ℤ (n -ℤ pos 1) +ℤ (c -ℤ a) ≡ d -ℤ n +ℤ pos 1
start_overwritten a b c d n e =
    let s = parts_of_eq e in
    eq_of_parts (b -ℤ (n -ℤ pos 1) +ℤ (c -ℤ a)) (d -ℤ n +ℤ pos 1) (omega (int_laws, s))

pub end_overwritten : (a c n : ℤ) → a +ℤ (n -ℤ pos 1) -ℤ (a -ℤ c) ≡ c +ℤ n -ℤ pos 1
end_overwritten a c n =
    eq_of_parts (a +ℤ (n -ℤ pos 1) -ℤ (a -ℤ c)) (c +ℤ n -ℤ pos 1) (omega int_laws)

pub self_difference : (a b : ℤ) → a -ℤ a ≡ b -ℤ b
self_difference a b = eq_of_parts (a -ℤ a) (b -ℤ b) (omega int_laws)

pub shift_start : (a b c d n s : ℤ) → d -ℤ c ≡ b -ℤ a → d -ℤ n +ℤ s -ℤ c ≡ b -ℤ n +ℤ s -ℤ a
shift_start a b c d n s e =
    let h = parts_of_eq e in eq_of_parts (d -ℤ n +ℤ s -ℤ c) (b -ℤ n +ℤ s -ℤ a) (omega (int_laws, h))

pub shift_end : (a b c d n s : ℤ) → d -ℤ c ≡ b -ℤ a → c +ℤ n -ℤ s -ℤ d ≡ a +ℤ n -ℤ s -ℤ b
shift_end a b c d n s e =
    let h = parts_of_eq e in eq_of_parts (c +ℤ n -ℤ s -ℤ d) (a +ℤ n -ℤ s -ℤ b) (omega (int_laws, h))

overwritten_right :
    (src dst : Attributes) (total x : ℤ)
    → dst.sector_end -ℤ dst.sector_start ≡ src.sector_end -ℤ src.sector_start
    → total /ℤ src.sector_size ≤ℤ dst.sector_end -ℤ dst.sector_start +ℤ pos 1
    → ltb_ℤ src.sector_start dst.sector_start ≡ true
    → has_sector (overwritten src dst total) x
      ≡ (has_sector src x && is_written src dst (total /ℤ src.sector_size) x)
unfolding overwritten
overwritten_right src dst total x m l k =
    let s = parts_of_eq m in
    let t = ltb_ℤ→lt src.sector_start dst.sector_start k in
    let e =
      start_overwritten src.sector_start src.sector_end dst.sector_start dst.sector_end
        (total /ℤ src.sector_size) m in
    rw (k, e)
      (meet_right src.sector_start src.sector_end
        (dst.sector_end -ℤ total /ℤ src.sector_size +ℤ pos 1) dst.sector_end x
        (omega (int_laws, s, t, l)) (omega (int_laws, s, t)))

overwritten_left :
    (src dst : Attributes) (total x : ℤ)
    → dst.sector_end -ℤ dst.sector_start ≡ src.sector_end -ℤ src.sector_start
    → total /ℤ src.sector_size ≤ℤ dst.sector_end -ℤ dst.sector_start +ℤ pos 1
    → ltb_ℤ src.sector_start dst.sector_start ≡ false
    → has_sector (overwritten src dst total) x
      ≡ (has_sector src x && is_written src dst (total /ℤ src.sector_size) x)
unfolding overwritten
overwritten_left src dst total x m l k =
    let s = parts_of_eq m in
    let t = ltb_ℤ→ge src.sector_start dst.sector_start k in
    let e = end_overwritten src.sector_start dst.sector_start (total /ℤ src.sector_size) in
    rw (k, e)
      (meet_left src.sector_start src.sector_end dst.sector_start
        (dst.sector_start +ℤ total /ℤ src.sector_size -ℤ pos 1) x t (omega (int_laws, s, t, l)))

-- What is copied back after the copying of `total` bytes to the new place has failed are the sectors of
-- the old place that it has written over, from where it had copied them to. The two places have the
-- same length, sectors of the same size, and no more has been copied than they hold.
pub overwritten-copied :
    (src dst : Attributes) (total x : ℤ)
    → IsMove src dst
    → total /ℤ src.sector_size ≤ℤ dst.sector_end -ℤ dst.sector_start +ℤ pos 1
    → (has_sector (overwritten src dst total) x
        ≡ (has_sector src x && is_written src dst (total /ℤ src.sector_size) x))
      × ((copied src dst total).sector_start -ℤ dst.sector_start
          ≡ (overwritten src dst total).sector_start -ℤ src.sector_start)
      × ((copied src dst total).sector_end -ℤ dst.sector_end
          ≡ (overwritten src dst total).sector_end -ℤ src.sector_end)
unfolding copied overwritten
overwritten-copied src dst total x m l =
    elim (Bool-cases (ltb_ℤ src.sector_start dst.sector_start)) [
      | inl k ↦ (
        overwritten_right src dst total x m.length l k,
        rw (k, m.sector_size)
            (shift_start src.sector_start src.sector_end dst.sector_start dst.sector_end
              (total /ℤ src.sector_size -ℤ pos 1) (dst.sector_start -ℤ src.sector_start) m.length),
        rw (k) (self_difference dst.sector_end src.sector_end),
      )
      | inr k ↦ (
        overwritten_left src dst total x m.length l k,
        rw (k) (self_difference dst.sector_start src.sector_start),
        rw (k, m.sector_size)
            (shift_end src.sector_start src.sector_end dst.sector_start dst.sector_end
              (total /ℤ src.sector_size -ℤ pos 1) (src.sector_start -ℤ dst.sector_start) m.length),
      )
    ]
