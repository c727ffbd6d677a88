-- ===== src/Tests/Output.antt =====
-- Runs of the captured output, with one byte for each character.
use gparted_android.Prelude.{
  ℕ, ◌≡◌, ◌+◌, refl, ap, true, false, Bool, Option, some, none, List, [], ◌∷◌, length, inl, arith,
}
use gparted_android.Prelude.Text.{codes}
use gparted_android.PipeCapture.{
  Lines, PipeCapture, normal, Validated, char, partial, run, on_readable,
}
use gparted_android.PipeCapture.Overwrite.{overwrite, run_overwrites}
use gparted_android.PipeCapture.Loop.{Advances, Delivers, on_readable-Delivers}

abbrev one_byte : ℕ → List ℕ
one_byte c = c ∷ []

abbrev first_byte : List ℕ → Validated
first_byte [] = partial
first_byte (b ∷ bs) = char b

abbrev after_byte : List ℕ → Option (List ℕ)
after_byte [] = none
after_byte (b ∷ bs) = some bs

abbrev nothing : Lines
nothing = record { linevec = []; cursor = 0; capturebuf = []; line_start = 0 }

abbrev half : Lines
half = record { linevec = codes "50%"; cursor = 0; capturebuf = codes "Copy"; line_start = 4 }

run_overwrites_example : run one_byte (codes "60") half ≡ record half {
  linevec = overwrite 0 (codes "60") (codes "50%");
  cursor = 0 + length (codes "60");
}
run_overwrites_example = run_overwrites one_byte (codes "60") half (refl, (refl, tt)) (omega arith)

abbrev waiting : PipeCapture
waiting = record { lines = half; kept = []; callerbuf = []; callerbuf_uptodate = false }

after_byte-Advances : Advances after_byte
after_byte-Advances b bs r h =
    let e : length bs ≡ length r =
      ap (λ (o : Option (List ℕ)). elim o [ none ↦ 0 | some x ↦ length x ]) h in
    inl (omega (arith, e))

on_readable-Delivers_example :
    (r : PipeCapture × Bool) × (on_readable one_byte first_byte after_byte true
        (normal (codes "60%"))
        waiting
      ≡ some r)
    × Delivers r
on_readable-Delivers_example =
    on_readable-Delivers one_byte first_byte after_byte true (normal (codes "60%")) waiting
      after_byte-Advances (inl refl)
