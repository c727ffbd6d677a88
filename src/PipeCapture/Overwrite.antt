-- ===== src/PipeCapture/Overwrite.antt =====
-- How characters that are no control characters enter the current line (src/PipeCapture.cc).
use gparted_android.Prelude.{
  ℕ, zero, suc, ◌+◌, ◌≡◌, ◌≤◌, ◌<◌, refl, ap, ◌∙◌, false, ◌||◌, Bool, List, [], ◌∷◌, ◌++◌, length,
  set, All, ltb, ◌==◌, Bool-cases, inl, inr, arith,
}
use gparted_android.PipeCapture.{Lines, put_char, line_discipline, run}

abbrev is_control : ℕ → Bool
is_control c = c == 8 || c == 13 || c == 10 || (c == 1 || c == 2)

-- The line with `xs` over its characters from the place `n` on, and behind its end.
abbrev pub overwrite : ℕ → List ℕ → List ℕ → List ℕ
overwrite zero [] l = l
overwrite zero (x ∷ xs) [] = x ∷ overwrite zero xs []
overwrite zero (x ∷ xs) (b ∷ l) = x ∷ overwrite zero xs l
overwrite (suc n) xs [] = xs
overwrite (suc n) xs (b ∷ l) = b ∷ overwrite n xs l

overwrite_nil : (n : ℕ) (l : List ℕ) → overwrite n [] l ≡ l
overwrite_nil zero l = refl
overwrite_nil (suc n) [] = refl
overwrite_nil (suc n) (b ∷ l) = ap (◌∷◌ b) (overwrite_nil n l)

set-overwrite : (n c : ℕ) (l : List ℕ) → n < length l → set l n c ≡ overwrite n (c ∷ []) l
set-overwrite n c [] h = absurd (omega (arith, h))
set-overwrite zero c (b ∷ l) h = refl
set-overwrite (suc n) c (b ∷ l) h = ap (◌∷◌ b) (set-overwrite n c l (omega (arith, h)))

append-overwrite : (n c : ℕ) (l : List ℕ) → n ≡ length l → l ++ c ∷ [] ≡ overwrite n (c ∷ []) l
append-overwrite zero c [] h = refl
append-overwrite zero c (b ∷ l) h = absurd (omega (arith, h))
append-overwrite (suc n) c [] h = refl
append-overwrite (suc n) c (b ∷ l) h = ap (◌∷◌ b) (append-overwrite n c l (omega (arith, h)))

overwrite-overwrite :
    (n c : ℕ) (xs l : List ℕ)
    → n ≤ length l
    → overwrite (suc n) xs (overwrite n (c ∷ []) l) ≡ overwrite n (c ∷ xs) l
overwrite-overwrite zero c xs [] h = refl
overwrite-overwrite zero c xs (b ∷ l) h = refl
overwrite-overwrite (suc n) c xs [] h = absurd (omega (arith, h))
overwrite-overwrite (suc n) c xs (b ∷ l) h =
    ap (◌∷◌ b) (overwrite-overwrite n c xs l (omega (arith, h)))

length-overwrite : (n c : ℕ) (l : List ℕ) → n ≤ length l → suc n ≤ length (overwrite n (c ∷ []) l)
length-overwrite zero c [] h = omega arith
length-overwrite zero c (b ∷ l) h = omega arith
length-overwrite (suc n) c [] h = absurd (omega (arith, h))
length-overwrite (suc n) c (b ∷ l) h = omega (arith, length-overwrite n c l (omega (arith, h)))

module _ (encode : ℕ → List ℕ) where
  line_discipline-put_char :
      (c : ℕ) (s : Lines) → is_control c ≡ false → line_discipline encode c s ≡ put_char c s
  unfolding line_discipline
  line_discipline-put_char c s h = ground arith

  put_char-overwrite :
      (c : ℕ) (s : Lines)
      → s.cursor ≤ length s.linevec
      → put_char c s
        ≡ record s { linevec = overwrite s.cursor (c ∷ []) s.linevec; cursor = suc s.cursor }
  unfolding put_char
  put_char-overwrite c s h =
      let e : s.cursor + 1 ≡ suc s.cursor = omega arith in
      elim (Bool-cases (ltb s.cursor (length s.linevec))) [
        | inl k ↦ rw (k, set-overwrite s.cursor c s.linevec (ground arith), e) refl
        | inr k ↦ rw (k, append-overwrite s.cursor c s.linevec (ground arith), e) refl
      ]

  -- Characters that are no control characters overwrite the line from the cursor on, grow it where it
  -- ends, and move the cursor behind them; what is captured of earlier lines stays.
  pub run_overwrites :
      (xs : List ℕ) (s : Lines)
      → All (λ c. is_control c ≡ false) xs
      → s.cursor ≤ length s.linevec
      → run encode xs s
        ≡ record s { linevec = overwrite s.cursor xs s.linevec; cursor = s.cursor + length xs }
  unfolding run
  run_overwrites [] s p h =
      let e : s.cursor + 0 ≡ s.cursor = omega arith in rw (overwrite_nil s.cursor s.linevec, e) refl
  run_overwrites (c ∷ xs) s p h =
      let e : suc s.cursor + length xs ≡ s.cursor + suc (length xs) = omega arith in
      ap (run encode xs) (line_discipline-put_char c s p.0 ∙ put_char-overwrite c s h)
      ∙ run_overwrites xs _ p.1 (length-overwrite s.cursor c s.linevec h)
      ∙ rw (overwrite-overwrite s.cursor c xs s.linevec h, e) refl
