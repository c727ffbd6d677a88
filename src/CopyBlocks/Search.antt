-- ===== src/CopyBlocks/Search.antt =====
-- The search for the fastest block size copies one piece after another (`copy_blocks` of
-- src/GParted_Core.cc).
use gparted_android.Prelude.{
  ℕ, zero, suc, ◌+◌, ◌*◌, ◌≤◌, ◌<◌, ◌≡◌, ◌⊎◌, refl, ◌∙◌, ap, subst, Bool, true, false, some,
  if◌then◌else◌, arith,
}
use gparted_android.Prelude.Int.{
  ℤ, pos, ◌+ℤ◌, ◌-ℤ◌, ◌*ℤ◌, llabs, eq_of_parts, parts_of_eq, int_laws,
}
use gparted_android.CopyBlocks.{Ped, IsLawful, User, Copying, copy}
use gparted_android.CopyBlocks.Steps.{signed, signed_parts}
use gparted_android.CopyBlocks.Moves.{Copied}
use gparted_android.CopyBlocks.Overlap.{low, high}
use gparted_android.CopyBlocks.Pieces.{piece_at, copy-Piece}
use gparted_android.CopyBlocks.Benchmark.{Range, Search, benchmark_copysize, goes_backwards, job_of}
use native.Mathlib.Nat.{mul_assoc}

-- So many doublings of the block size go past 16 MiB; sizes are in sectors, `m` of them in 1 MiB.
abbrev pub Enough : ℕ → ℕ → ℕ → Type 0
Enough m zero k = 16 * m < k
Enough m (suc fuel) k = Enough m fuel (k * 2)

pub copysize : (m c : ℕ) → m * c ≡ 1048576 → benchmark_copysize ≡ pos (16 * m * c)
unfolding ◌*ℤ◌
copysize m c e = ap pos (omega (arith, e, mul_assoc 16 m c))

module _ (ped : Ped) (r : Range) (c m n : ℕ) where
  -- All sectors have `c` bytes, 1 MiB has `m` of them, and `n` are to be copied.
  pub record OfSectors : Type 0 where
    pub src_size : ped.sector_size r.src_device ≡ pos c
    pub dst_size : ped.sector_size r.dst_device ≡ pos c
    pub src_sector : r.src_sector_size ≡ pos c
    pub dst_sector : r.dst_sector_size ≡ pos c
    pub mebibyte_size : m * c ≡ 1048576
    pub length : r.src_length ≡ pos (n * c)
    pub some_sector : 0 < n

  -- Every read succeeds.
  abbrev pub Readable : Type 0
  Readable =
      (w : ped.World) (o count : ℤ) → (b : ped.Buffer) × (ped.read w r.src_device o count ≡ some b)

  abbrev pub base : ℕ
  base = if goes_backwards r then n else 0

  -- After some pieces: `j` sectors have been copied and counted.
  pub record Searched (start : ped.World) (k : ℕ) (b : Search (ped.World)) : Type 0 where
    pub j : ℕ
    pub optimal : ℕ
    pub going : b.success ≡ true
    pub bench : b.benchmark_blocksize ≡ pos (k * c)
    pub some_optimal : 0 < optimal
    pub best : b.optimal_blocksize ≡ pos (optimal * c)
    pub within : j ≤ n
    pub count : b.done ≡ signed (goes_backwards r) (j * c)
    pub total : b.total_done ≡ pos (j * c)
    pub copied :
        Copied ped r.src_device r.dst_device r.src_start r.dst_start start b.world
          (low (goes_backwards r) base j)
          (high (goes_backwards r) base j)

pub some_byte : (c m : ℕ) → m * c ≡ 1048576 → 0 < c
some_byte zero m e = absurd (omega (arith, e))
some_byte (suc c) m e = omega arith

pub some_size : (c m : ℕ) → m * c ≡ 1048576 → 0 < m
some_size c zero e = absurd (omega (arith, e))
some_size c (suc m) e = omega arith

-- Where the next piece of `p` sectors begins, after `j` of `n`.
pub next_at :
    (back : Bool) (s x y z : ℤ) (n j p : ℕ)
    → j + p ≤ n
    → x ≡ pos n
    → y ≡ pos p
    → z ≡ signed back j
    → (if back then s +ℤ (x -ℤ y) else s) +ℤ z
      ≡ s
        +ℤ pos (
            piece_at back
              (low back (if back then n else 0) j)
              (high back (if back then n else 0) j)
              p)
next_at true s x y z n j p le e1 e2 e3 =
    eq_of_parts _ _
      (omega (int_laws, le, parts_of_eq e1, parts_of_eq e2, parts_of_eq e3, signed_parts true j))
next_at false s x y z n j p le e1 e2 e3 =
    eq_of_parts _ _ (omega (int_laws, le, parts_of_eq e3, signed_parts false j))

-- The bytes that are done after another piece.
pub counted_on :
    (back : Bool) (don cs : ℤ) (x y : ℕ)
    → don ≡ signed back x
    → cs ≡ pos y
    → (if back then don -ℤ cs else don +ℤ cs) ≡ signed back (x + y)
counted_on true don cs x y e e' = eq_of_parts _ _ (
    omega (int_laws, parts_of_eq e, parts_of_eq e', signed_parts true x, signed_parts true (x + y)))
counted_on false don cs x y e e' = eq_of_parts _ _ (
    omega
      (int_laws, parts_of_eq e, parts_of_eq e', signed_parts false x, signed_parts false (x + y)))

joined_low : (back : Bool) (n j p : ℕ) → low back (low back n j) p ≡ low back n (j + p)
joined_low true n j p = omega arith
joined_low false n j p = refl

joined_high : (back : Bool) (n j p : ℕ) → high back (high back n j) p ≡ high back n (j + p)
joined_high true n j p = refl
joined_high false n j p = omega arith

low-le-high : (back : Bool) (x j : ℕ) → low back x j ≤ high back x j
low-le-high true x j = omega arith
low-le-high false x j = omega arith

room_left :
    (back : Bool) (n j p : ℕ) → j + p ≤ n → back ≡ true → p ≤ low back (if back then n else 0) j
room_left true n j p h e = omega (arith, h)
room_left false n j p h e = absurd (ground (arith, e))

module _ (ped : Ped) (lawful : IsLawful ped) (user : User) (is_best : ℕ → Bool) (r : Range)
    (c m n : ℕ) (sizes : OfSectors ped r c m n) (readable : Readable ped r c m n)
    (start : ped.World) where
  abbrev pub back : Bool
  back = goes_backwards r

  pub positive : 0 < c
  positive = some_byte c m sizes.mebibyte_size

  abbrev pub Adds : Copying (ped.World) → ℕ → ℕ → ℕ → Type 0
  Adds t p lo hi =
      (t.success ≡ false)
      ⊎ ((t.success ≡ true)
          × (llabs t.done ≡ p * c)
          × Copied ped r.src_device r.dst_device r.src_start r.dst_start start t.world lo hi)

  joined :
      (t : Copying (ped.World)) (j p : ℕ)
      → Adds t p
          (low back (low back (base ped r c m n) j) p)
          (high back (high back (base ped r c m n) j) p)
      → Adds t p (low back (base ped r c m n) (j + p)) (high back (base ped r c m n) (j + p))
  joined t j p h =
      subst (λ (x : ℕ). Adds t p x (high back (base ped r c m n) (j + p)))
        (joined_low back (base ped r c m n) j p)
        (subst (Adds t p (low back (low back (base ped r c m n) j) p))
          (joined_high back (base ped r c m n) j p) h)

  -- A piece of `p` sectors that is copied with the arguments that its place asks for.
  pub copy-next :
      (k p size : ℕ) (b : Search (ped.World)) (length from to blocksize : ℤ)
      (f : Searched ped r c m n start k b)
      → 0 < p
      → f.j + p ≤ n
      → 0 < size
      → length ≡ pos (p * c)
      → from
        ≡ r.src_start
          +ℤ pos
              (piece_at back (low back (base ped r c m n) f.j) (high back (base ped r c m n) f.j) p)
      → to
        ≡ r.dst_start
          +ℤ pos
              (piece_at back (low back (base ped r c m n) f.j) (high back (base ped r c m n) f.j) p)
      → blocksize ≡ pos (size * c)
      → (t : Copying (ped.World)) × (copy ped user
            (job_of r length)
            b.world
            b.blocks
            from
            to
            blocksize
            b.total_done
          ≡ some (t, b.total_done +ℤ pos (llabs t.done)))
        × ((t.success ≡ false)
            ⊎ ((t.success ≡ true)
                × (llabs t.done ≡ p * c)
                × Copied ped r.src_device r.dst_device r.src_start r.dst_start start t.world
                    (low back (base ped r c m n) (f.j + p))
                    (high back (base ped r c m n) (f.j + p))))
  copy-next k p size b length from to blocksize f h le h' e1 e2 e3 e4 =
      let (t, run, end) =
        copy-Piece ped lawful user (job_of r length) c (low back (base ped r c m n) f.j)
          (high back (base ped r c m n) f.j) p size sizes.src_size sizes.dst_size positive readable
          r.src_start r.dst_start start b.world (low-le-high back (base ped r c m n) f.j) back refl
          (room_left back n f.j p le) e1 h h' f.copied b.blocks b.total_done in
      (
        t,
        (λ i. copy ped user (job_of r length) b.world b.blocks (e2 i) (e3 i) (e4 i) b.total_done)
            ∙ run,
        joined t f.j p end,
      )
