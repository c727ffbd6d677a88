-- ===== src/CopyBlocks/Rounds.antt =====
-- The search for the fastest block size ends after five pieces at most, and counts what it copies
-- (`copy_blocks` of src/GParted_Core.cc).
use gparted_android.Prelude.{
  ℕ, zero, suc, ◌+◌, ◌*◌, ◌≤◌, ◌<◌, ◌≡◌, ◌⊎◌, inl, inr, refl, sym, ◌∙◌, ap, Bool, true, false, ◌&&◌,
  some, if◌then◌else◌, arith, Bool-cases,
}
use gparted_android.Prelude.Int.{
  ℤ, pos, ◌+ℤ◌, ◌-ℤ◌, ◌*ℤ◌, ◌/ℤ◌, llabs, leb_ℤ, leb_ℤ→le, lt→leb_ℤ, eq_of_parts, parts_of_eq,
  int_laws,
}
use gparted_android.CopyBlocks.{Ped, IsLawful, User, Copying}
use gparted_android.CopyBlocks.Steps.{signed, signed-div, llabs-signed, round_up}
use gparted_android.CopyBlocks.Loop.{ap2}
use gparted_android.CopyBlocks.Overlap.{low, high}
use gparted_android.CopyBlocks.Pieces.{pos-div}
use gparted_android.CopyBlocks.Benchmark.{
  Range, Search, benchmark_copysize, goes_backwards, offset_read, offset_write, goes_on_searching,
  measured, copy_piece, search,
}
use gparted_android.CopyBlocks.Search.{
  OfSectors, Readable, base, Searched, Enough, next_at, counted_on, some_size, copysize, positive,
  Adds, copy-next,
}
use native.Mathlib.Nat.{add-mul, le_of_mul-le-mul_right, mul-lt-mul_of_pos_right}

second_true : (a b c : Bool) → (a && b && c) ≡ true → b ≡ true
second_true a b c h = ground (arith, h)

third_false : (a b c : Bool) → c ≡ false → (a && b && c) ≡ false
third_false a b c h = ground (arith, h)

doubled : (z : ℤ) (k c : ℕ) → z ≡ pos (k * c) → z *ℤ pos 2 ≡ pos (k * 2 * c)
unfolding ◌*ℤ◌
doubled z k c e = eq_of_parts _ _ (ground (arith, parts_of_eq e))

chosen_pos : (o : Bool) (k k' : ℕ) → 0 < k → 0 < k' → 0 < (if o then k else k')
chosen_pos true k k' h h' = h
chosen_pos false k k' h h' = h'

chosen_size :
    (o : Bool) (z z' : ℤ) (k k' c : ℕ)
    → z ≡ pos (k * c)
    → z' ≡ pos (k' * c)
    → (if o then z else z') ≡ pos ((if o then k else k') * c)
chosen_size true z z' k k' c e e' = e
chosen_size false z z' k k' c e e' = e'

module _ (ped : Ped) (lawful : IsLawful ped) (user : User) (is_best : ℕ → Bool) (r : Range)
    (c m n : ℕ) (sizes : OfSectors ped r c m n) (readable : Readable ped r c m n)
    (start : ped.World) where
  abbrev pub Found : ℕ → Search (ped.World) → Type 0
  Found k b = (b.success ≡ false) ⊎ Searched ped r c m n start k b

  fits_piece :
      (k : ℕ) (b : Search (ped.World)) (f : Searched ped r c m n start k b)
      → leb_ℤ (pos (llabs b.done) +ℤ benchmark_copysize) r.src_length ≡ true
      → f.j + 16 * m ≤ n
  fits_piece k b f h =
      let le : (f.j + 16 * m) * c ≤ n * c = omega (
        int_laws,
        leb_ℤ→le (pos (llabs b.done) +ℤ benchmark_copysize) r.src_length h,
        parts_of_eq (copysize m c sizes.mebibyte_size),
        parts_of_eq sizes.length,
        ap llabs f.count,
        llabs-signed (goes_backwards r) (f.j * c),
        add-mul f.j (16 * m) c,
      ) in
      le_of_mul-le-mul_right le (positive ped lawful user is_best r c m n sizes readable start)

  measured-Found :
      (k : ℕ) (b : Search (ped.World)) (t : Copying (ped.World))
      (f : Searched ped r c m n start k b)
      → 0 < k
      → f.j + 16 * m ≤ n
      → Adds ped lawful user is_best r c m n sizes readable start t
          (16 * m)
          (low (goes_backwards r) (base ped r c m n) (f.j + 16 * m))
          (high (goes_backwards r) (base ped r c m n) (f.j + 16 * m))
      → Found (k * 2) (measured ped user is_best r b (t, b.total_done +ℤ pos (llabs t.done)))
  measured-Found k b t f h le (inl x) = inl x
  measured-Found k b t f h le (inr (g, e, copied)) = inr (record {
    j = f.j + 16 * m;
    optimal = if is_best t.blocks then k else f.optimal;
    going = g;
    bench = doubled b.benchmark_blocksize k c f.bench;
    some_optimal = chosen_pos (is_best t.blocks) k f.optimal h f.some_optimal;
    best = chosen_size (is_best t.blocks) _ _ k f.optimal c f.bench f.best;
    within = le;
    count =
        counted_on (goes_backwards r) b.done benchmark_copysize (f.j * c) (16 * m * c) f.count
          (copysize m c sizes.mebibyte_size)
        ∙ ap (signed (goes_backwards r)) (sym (add-mul f.j (16 * m) c));
    total = eq_of_parts _ _ (omega (int_laws, parts_of_eq f.total, e, add-mul f.j (16 * m) c));
    copied = copied;
  })

  piece-Found :
      (k : ℕ) (b : Search (ped.World))
      → 0 < k
      → leb_ℤ (pos (llabs b.done) +ℤ benchmark_copysize) r.src_length ≡ true
      → Searched ped r c m n start k b
      → (t : Copying (ped.World) × ℤ) × (copy_piece ped user is_best r b ≡ some t)
        × Found (k * 2) (measured ped user is_best r b t)
  unfolding copy_piece
  piece-Found k b h g f =
      let p = positive ped lawful user is_best r c m n sizes readable start in
      let cs = copysize m c sizes.mebibyte_size in
      let le = fits_piece k b f g in
      let (t, run, end) =
        copy-next ped lawful user is_best r c m n sizes readable start k (16 * m) k b
          benchmark_copysize (offset_read r +ℤ b.done /ℤ r.src_sector_size)
          (offset_write r +ℤ b.done /ℤ r.dst_sector_size) b.benchmark_blocksize f
          (omega (arith, some_size c m sizes.mebibyte_size)) le h cs
          (next_at (goes_backwards r) r.src_start _ _ _ n f.j (16 * m) le
            (ap2 ◌/ℤ◌ sizes.length sizes.src_sector ∙ pos-div n c p)
            (ap2 ◌/ℤ◌ cs sizes.src_sector ∙ pos-div (16 * m) c p)
            (ap2 ◌/ℤ◌ f.count sizes.src_sector ∙ signed-div (goes_backwards r) f.j c p))
          (next_at (goes_backwards r) r.dst_start _ _ _ n f.j (16 * m) le
            (ap2 (λ (z y : ℤ). (z +ℤ (y -ℤ pos 1)) /ℤ y) sizes.length sizes.dst_sector
              ∙ round_up n c p)
            (ap2 ◌/ℤ◌ cs sizes.dst_sector ∙ pos-div (16 * m) c p)
            (ap2 ◌/ℤ◌ f.count sizes.dst_sector ∙ signed-div (goes_backwards r) f.j c p))
          f.bench in
      ((t, b.total_done +ℤ pos (llabs t.done)), run, measured-Found k b t f h le end)

  search_stops :
      (fuel : ℕ) (b : Search (ped.World))
      → goes_on_searching ped user is_best r b ≡ false
      → search ped user is_best r fuel b ≡ some b
  unfolding search
  search_stops zero b h = rw h refl
  search_stops (suc fuel) b h = rw h refl

  search_step :
      (fuel : ℕ) (b : Search (ped.World)) (out : Copying (ped.World) × ℤ)
      → goes_on_searching ped user is_best r b ≡ true
      → copy_piece ped user is_best r b ≡ some out
      → search ped user is_best r (suc fuel) b
        ≡ search ped user is_best r fuel (measured ped user is_best r b out)
  unfolding search
  search_step fuel b out h e = rw (h, e) refl

  failed_search :
      (b : Search (ped.World)) → b.success ≡ false → goes_on_searching ped user is_best r b ≡ false
  failed_search b h = rw h refl

  room_searched :
      (b : Search (ped.World))
      → goes_on_searching ped user is_best r b ≡ true
      → leb_ℤ (pos (llabs b.done) +ℤ benchmark_copysize) r.src_length ≡ true
  room_searched b h =
      second_true b.success (leb_ℤ (pos (llabs b.done) +ℤ benchmark_copysize) r.src_length)
        (leb_ℤ b.benchmark_blocksize benchmark_copysize) h

  -- The block size is past 16 MiB.
  too_large :
      (k : ℕ) (b : Search (ped.World))
      → Found k b
      → 16 * m < k
      → goes_on_searching ped user is_best r b ≡ false
  too_large k b (inl f) h = failed_search b f
  too_large k b (inr f) h =
      let lt : 16 * m * c < k * c =
        mul-lt-mul_of_pos_right h (positive ped lawful user is_best r c m n sizes readable start) in
      third_false b.success (leb_ℤ (pos (llabs b.done) +ℤ benchmark_copysize) r.src_length)
        (leb_ℤ b.benchmark_blocksize benchmark_copysize)
        (lt→leb_ℤ b.benchmark_blocksize benchmark_copysize (
          omega
            (int_laws, lt, parts_of_eq (copysize m c sizes.mebibyte_size), parts_of_eq f.bench)))

  abbrev pub Complete : Search (ped.World) → Type 0
  Complete b = (b.success ≡ false) ⊎ ((k : ℕ) × Searched ped r c m n start k b)

  ended : (k : ℕ) (b : Search (ped.World)) → Found k b → Complete b
  ended k b (inl x) = inl x
  ended k b (inr f) = inr (k, f)

  pub search-Complete :
      (fuel k : ℕ) (b : Search (ped.World))
      → 0 < k
      → Enough m fuel k
      → Found k b
      → (b' : Search (ped.World)) × (search ped user is_best r fuel b ≡ some b') × Complete b'
  search-Complete zero k b h e f = (b, search_stops 0 b (too_large k b f e), ended k b f)
  search-Complete (suc fuel) k b h e f =
      elim (Bool-cases (goes_on_searching ped user is_best r b)) [
        | inr x ↦ (b, search_stops (suc fuel) b x, ended k b f)
        | inl x ↦ elim f [
          | inl g ↦ absurd (ground (arith, x, failed_search b g))
          | inr g ↦
              let (out, run, next) = piece-Found k b h (room_searched b x) g in
              let (b', rest, end) =
                search-Complete fuel (k * 2) (measured ped user is_best r b out) (omega (arith, h))
                  e next in
              (b', search_step fuel b out x run ∙ rest, end)
        ]
      ]
