-- ===== src/Unallocated/Tiles.antt =====
-- `insert_unallocated` tiles the space: it keeps the order, keeps every partition, and leaves no
-- space unshown; a second call finds nothing to do.
use gparted_android.Prelude.{
  ◌≡◌, ◌⊎◌, refl, ap, Bool, true, false, if◌then◌else◌, List, [], ◌∷◌, ◌||◌, ◌&&◌, not, Bool-cases,
  inl, inr, arith,
}
use gparted_android.Prelude.Int.{
  ℤ, pos, ◌+ℤ◌, ◌-ℤ◌, ◌≤ℤ◌, ◌<ℤ◌, int_laws, ltb_ℤ, leb_ℤ, eq_ℤ, ltb_ℤ→lt, ltb_ℤ→ge, ge→ltb_ℤ,
  lt→leb_ℤ, leb_ℤ→le, leb_ℤ→gt,
}
use gparted_android.Prelude.Text.{Text}
use gparted_android.Utils.{Gettext}
use gparted_android.Partition.{Partition, type_is, type_logical}
use gparted_android.Partition.Basic.{set_unallocated}
use gparted_android.Unallocated.{
  unallocated, grain, gap, shown, fill_gaps, fill_end, close, insert_unallocated,
}
use gparted_android.Unallocated.Layout.{InOrder, Covers, CoversAll, allocated}

-- What the test of the loop leaves, and what it finds.
shown-false :
    (g : ℤ) (p q : Partition)
    → shown g p q ≡ false
    → (gap p q ≤ℤ g) × ((type_is q.type type_logical ≡ true) ⊎ (gap p q <ℤ g))
shown-false g p q h = (
  ground arith,
  elim (Bool-cases (type_is q.type type_logical)) [ inl l ↦ inl l | inr n ↦ inr (ground arith) ],
)

shown_true : (g : ℤ) (p q : Partition) → shown g p q ≡ true → g ≤ℤ gap p q
shown_true g p q h = ground arith

idle :
    (g : ℤ) (p q : Partition)
    → q.sector_start -ℤ (p.sector_end +ℤ pos 1) ≤ℤ g
    → (type_is q.type type_logical ≡ true) ⊎ (q.sector_start -ℤ (p.sector_end +ℤ pos 1) <ℤ g)
    → shown g p q ≡ false
idle g p q h k =
    let e : q.sector_start -ℤ (p.sector_end +ℤ pos 1) ≡ gap p q = omega int_laws in
    elim k [
      | inl l ↦ rw (l, ge→ltb_ℤ g (gap p q) (rw e at h)) refl
      | inr n ↦ below g (gap p q) (rw e at n)
    ]
  where
    below :
        (a b : ℤ) → b <ℤ a → (ltb_ℤ a b || (not (type_is q.type type_logical) && eq_ℤ b a)) ≡ false
    below a b h = ground arith

idle_end :
    (g : ℤ) (p : Partition) (end : ℤ)
    → end -ℤ (p.sector_end +ℤ pos 1) +ℤ pos 1 <ℤ g
    → leb_ℤ g (end -ℤ p.sector_end) ≡ false
idle_end g p end h = lt→leb_ℤ g _ (omega int_laws)

module _ (tr : Gettext) (device_path : Text) (sector_size : ℤ) (inside : Bool) where
  abbrev space : ℤ → ℤ → Partition
  space = unallocated tr device_path sector_size inside

  abbrev g : ℤ
  g = grain sector_size

  close_step :
      (p q : Partition) (rest : List Partition) (end : ℤ)
      → close tr device_path sector_size inside p (q ∷ rest) end ≡ (
          if shown g p q
          then space (p.sector_end +ℤ pos 1) (q.sector_start -ℤ pos 1)
            ∷ q
            ∷ close tr device_path sector_size inside q rest end
          else q ∷ close tr device_path sector_size inside q rest end)
  unfolding close
  close_step p q rest end = elim (Bool-cases (shown g p q)) [
    | inl h ↦ rw (h, close) refl
    | inr h ↦ rw (h, close) refl
  ]

  Tiled : ℤ → ℤ → List Partition → List Partition → Type 0
  Tiled lo hi ps qs = InOrder lo hi qs × Covers g lo hi qs × (allocated qs ≡ allocated ps)

  fill_end-Tiled :
      (p : Partition) (end : ℤ)
      → pos 1 ≤ℤ g
      → p.sector_end ≤ℤ end
      → Tiled (p.sector_end +ℤ pos 1) end [] (fill_end tr device_path sector_size inside p end)
  unfolding fill_end unallocated set_unallocated Tiled
  fill_end-Tiled p end h k = elim (Bool-cases (leb_ℤ g (end -ℤ p.sector_end))) [
    | inl e ↦
        rw (e, fill_end)
          (
            (omega int_laws, omega (int_laws, leb_ℤ→le), omega int_laws, tt),
            (omega int_laws, inr (omega int_laws), omega int_laws),
            refl,
          )
    | inr e ↦ rw (e, fill_end) (tt, omega (int_laws, leb_ℤ→gt), refl)
  ]

  -- The space between two partitions, put in front of what follows.
  with_space :
      (p q : Partition) (rest qs : List Partition) (end : ℤ)
      → pos 1 ≤ℤ g
      → g ≤ℤ gap p q
      → q.sector_end ≤ℤ end
      → q.sector_start ≤ℤ q.sector_end
      → Tiled (q.sector_end +ℤ pos 1) end rest qs
      → Tiled
          (p.sector_end +ℤ pos 1)
          end
          (q ∷ rest)
          (space (p.sector_end +ℤ pos 1) (q.sector_start -ℤ pos 1) ∷ q ∷ qs)
  unfolding unallocated set_unallocated Tiled
  with_space p q rest qs end h k l m (i, c, a) = (
    (omega int_laws, omega int_laws, omega int_laws, (omega int_laws, m, l, i)),
    (omega int_laws, inr (omega int_laws), (omega int_laws, inr (omega int_laws), c)),
    rw a refl,
  )

  without_space :
      (p q : Partition) (rest qs : List Partition) (end : ℤ)
      → shown g p q ≡ false
      → InOrder (p.sector_end +ℤ pos 1) end (q ∷ rest)
      → Tiled (q.sector_end +ℤ pos 1) end rest qs
      → Tiled (p.sector_end +ℤ pos 1) end (q ∷ rest) (q ∷ qs)
  unfolding Tiled
  without_space p q rest qs end e o (i, c, a) =
      let f = shown-false g p q e in
      (
        (o.0, o.1, o.2, i),
        (omega int_laws, elim f.1 [ inl l ↦ inl l | inr n ↦ inr (omega (int_laws, n)) ], c),
        rw a refl,
      )

  close-Tiled :
      (p : Partition) (rest : List Partition) (end : ℤ)
      → pos 1 ≤ℤ g
      → p.sector_end ≤ℤ end
      → InOrder (p.sector_end +ℤ pos 1) end rest
      → Tiled (p.sector_end +ℤ pos 1) end rest (close tr device_path sector_size inside p rest end)
  unfolding Tiled
  close-Tiled p [] end h k o = unfold close in fill_end-Tiled p end h k
  close-Tiled p (q ∷ rest) end h k o =
      let (i, c, a) = close-Tiled q rest end h o.2 o.3 in
      rw (close_step p q rest end) (elim (Bool-cases (shown g p q)) [
        | inl e ↦ rw e (with_space p q rest _ end h (shown_true g p q e) o.2 o.1 (i, c, a))
        | inr e ↦ rw e (without_space p q rest _ end e o (i, c, a))
      ])

  -- From partitions that lie in order in the space, it makes a vector that lies in order in it too,
  -- has the same allocated partitions, and leaves less than a mebibyte unshown anywhere (exactly one
  -- only at the start and before a logical partition). A sector is at most a mebibyte.
  pub insert_unallocated_tiles :
      (ps : List Partition) (start end : ℤ)
      → pos 1 ≤ℤ grain sector_size
      → start ≤ℤ end
      → InOrder start end ps
      → let qs = insert_unallocated tr device_path sector_size inside ps start end in
        InOrder start end qs
        × CoversAll (grain sector_size) start end qs
        × (allocated qs ≡ allocated ps)
  unfolding insert_unallocated unallocated set_unallocated Tiled
  insert_unallocated_tiles [] start end h k o =
      ((omega int_laws, k, omega arith, tt), (omega int_laws, omega int_laws), refl)
  insert_unallocated_tiles (p ∷ rest) start end h k o =
      elim (Bool-cases (ltb_ℤ g (p.sector_start -ℤ start))) [
        | inl e ↦
            let u : Partition = space start (p.sector_start -ℤ pos 1) in
            let (i, c, a) =
              close-Tiled u (p ∷ rest) end h (omega int_laws) (omega int_laws, o.1, o.2, o.3) in
            rw e (
              (omega int_laws, omega (int_laws, ltb_ℤ→lt), omega int_laws, i),
              (omega int_laws, c),
              a,
            )
        | inr e ↦
            let (i, c, a) = close-Tiled p rest end h o.2 o.3 in
            rw e ((o.0, o.1, o.2, i), (omega (int_laws, ltb_ℤ→ge), c), rw a refl)
      ]

  close_idle :
      (p : Partition) (rest : List Partition) (end : ℤ)
      → Covers g (p.sector_end +ℤ pos 1) end rest
      → close tr device_path sector_size inside p rest end ≡ rest
  close_idle p [] end c = unfold close fill_gaps fill_end in rw (idle_end g p end c)
  close_idle p (q ∷ rest) end c =
      rw (close_step p q rest end, idle g p q c.0 c.1, close_idle q rest end c.2)

  -- A second call on what leaves no space unshown changes nothing.
  pub insert_unallocated_idle :
      (ps : List Partition) (start end : ℤ)
      → CoversAll (grain sector_size) start end ps
      → insert_unallocated tr device_path sector_size inside ps start end ≡ ps
  unfolding insert_unallocated
  insert_unallocated_idle [] start end c = absurd c
  insert_unallocated_idle (p ∷ rest) start end c =
      rw (ge→ltb_ℤ g (p.sector_start -ℤ start) c.0) (ap (◌∷◌ p) (close_idle p rest end c.1))
