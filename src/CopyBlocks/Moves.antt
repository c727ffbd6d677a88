-- ===== src/CopyBlocks/Moves.antt =====
-- A copy of whole sectors between devices with sectors of one size (src/CopyBlocks.cc): what has
-- been copied so far, and that a block adds to it although the two places may overlap.
use gparted_android.Prelude.{
  ℕ, ◌+◌, ◌-◌, ◌≤◌, ◌<◌, ◌≡◌, ◌≢◌, ◌⊎◌, inl, inr, sym, ◌∙◌, ap, true, some, Bool-cases, ltb, leb,
  arith,
}
use gparted_android.Prelude.Int.{ℤ, pos, ◌+ℤ◌, ◌<ℤ◌, ◌≤ℤ◌, eq_of_parts, int_laws}
use gparted_android.Prelude.Text.{Text}
use gparted_android.CopyBlocks.{Ped, IsLawful}

-- Between two worlds: the sectors from `lo` to `hi` of the range have been copied, and every other
-- sector of every device is as it was.
pub record Copied (ped : Ped) (src dst : Text) (s d : ℤ) (w w' : ped.World) (lo hi : ℕ)
    : Type 0 where
  pub copied :
      (i : ℕ) → lo ≤ i → i < hi → ped.contents w' dst (d +ℤ pos i) ≡ ped.contents w src (s +ℤ pos i)
  pub kept :
      (device : Text) (x : ℤ)
      → (device ≢ dst) ⊎ (x <ℤ d +ℤ pos lo) ⊎ (d +ℤ pos hi ≤ℤ x)
      → ped.contents w' device x ≡ ped.contents w device x

at_index : (d : ℤ) (p j : ℕ) → d +ℤ pos p +ℤ pos j ≡ d +ℤ pos (p + j)
at_index d p j = eq_of_parts _ _ (omega int_laws)

within :
    (p count i : ℕ) → ((p ≤ i) × (i - p < count) × (p + (i - p) ≡ i)) ⊎ ((i < p) ⊎ (p + count ≤ i))
within p count i = elim (Bool-cases (leb p i)) [
  | inl h ↦ elim (Bool-cases (ltb (i - p) count)) [
    | inl k ↦ inl (ground (arith, h), ground (arith, k), ground (arith, h))
    | inr k ↦ inr (inr (ground (arith, h, k)))
  ]
  | inr h ↦ inr (inl (ground (arith, h)))
]

module _ (ped : Ped) (lawful : IsLawful ped) (src dst : Text) (s d : ℤ) (w w' : ped.World) where
  -- A block of `count` sectors from `p` on is copied, whose sources have not been written over.
  module _ (lo hi p count : ℕ) (b : ped.Buffer) (c : Copied ped src dst s d w w' lo hi)
      (apart : (i : ℕ)
        → p ≤ i
        → i < p + count
        → (src ≢ dst) ⊎ ((s +ℤ pos i <ℤ d +ℤ pos lo) ⊎ (d +ℤ pos hi ≤ℤ s +ℤ pos i)))
      (r : ped.read w' src (s +ℤ pos p) (pos count) ≡ some b)
      (wr : (ped.write w' dst b (d +ℤ pos p) (pos count)).0 ≡ true) where
    abbrev after : ped.World
    after = (ped.write w' dst b (d +ℤ pos p) (pos count)).1

    copied_block :
        (i : ℕ)
        → p ≤ i
        → i - p < count
        → p + (i - p) ≡ i
        → ped.contents after dst (d +ℤ pos i) ≡ ped.contents w src (s +ℤ pos i)
    copied_block i le h e =
        let there : d +ℤ pos p +ℤ pos (i - p) ≡ d +ℤ pos i =
          at_index d p (i - p) ∙ ap (λ (n : ℕ). d +ℤ pos n) e in
        let from : s +ℤ pos p +ℤ pos (i - p) ≡ s +ℤ pos i =
          at_index s p (i - p) ∙ ap (λ (n : ℕ). s +ℤ pos n) e in
        ap (ped.contents after dst) (sym there)
        ∙ lawful.contents-write w' dst b (d +ℤ pos p) count (i - p) wr h
        ∙ lawful.sector-read w' src (s +ℤ pos p) count b (i - p) r h
        ∙ ap (ped.contents w' src) from
        ∙ c.kept src (s +ℤ pos i) (apart i le (omega (arith, h, e)))

    -- A sector outside of the block is as it was before it.
    other_block :
        (device : Text) (x : ℤ)
        → (device ≢ dst) ⊎ ((x <ℤ d +ℤ pos p) ⊎ (d +ℤ pos (p + count) ≤ℤ x))
        → ped.contents after device x ≡ ped.contents w' device x
    other_block device x o =
        lawful.contents-write_other w' dst b (d +ℤ pos p) count device x (elim o [
          | inl n ↦ inl n
          | inr (inl h) ↦ inr (inl h)
          | inr (inr h) ↦ inr (inr (rw (at_index d p count) h))
        ])

    -- The block adjoins what was copied.
    pub Copied-add :
        (lo' hi' : ℕ)
        → lo' ≤ lo
        → hi ≤ hi'
        → lo' ≤ p
        → p + count ≤ hi'
        → ((i : ℕ) → lo' ≤ i → i < hi' → (i < p) ⊎ (p + count ≤ i) → (lo ≤ i) × (i < hi))
        → Copied ped src dst s d w after lo' hi'
    Copied-add lo' hi' h1 h2 h3 h4 h5 = record {
      copied = λ i l h. elim (within p count i) [
        | inl (a, k, e) ↦ copied_block i a k e
        | inr out ↦
            other_block dst (d +ℤ pos i) (elim out [
              | inl k ↦ inr (inl (omega (int_laws, k)))
              | inr k ↦ inr (inr (omega (int_laws, k)))
            ])
            ∙ c.copied i (h5 i l h out).0 (h5 i l h out).1
      ];
      kept = λ device x o. elim o [
        | inl n ↦ other_block device x (inl n) ∙ c.kept device x (inl n)
        | inr (inl k) ↦
            other_block device x (inr (inl (omega (int_laws, k, h3))))
            ∙ c.kept device x (inr (inl (omega (int_laws, k, h1))))
        | inr (inr k) ↦
            other_block device x (inr (inr (omega (int_laws, k, h4))))
            ∙ c.kept device x (inr (inr (omega (int_laws, k, h2))))
      ];
    }
