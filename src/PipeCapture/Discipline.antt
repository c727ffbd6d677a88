-- ===== src/PipeCapture/Discipline.antt =====
-- What the line discipline of src/PipeCapture.cc shows.
use gparted_android.Prelude.{
  ℕ, zero, suc, ◌≡◌, refl, sym, ap, ◌∙◌, ◌||◌, List, [], ◌∷◌, ◌++◌, length, ltb, ◌==◌, Bool-cases,
  inl, inr,
}
use gparted_android.PipeCapture.{
  Lines, resize_string, append_unichar_vector_to_utf8, paste, start_line, put_char, line_discipline,
}

append_nil : (xs : List ℕ) → xs ++ [] ≡ xs
append_nil [] = refl
append_nil (x ∷ xs) = ap (◌∷◌ x) (append_nil xs)

pub append_assoc : (xs ys zs : List ℕ) → (xs ++ ys) ++ zs ≡ xs ++ (ys ++ zs)
append_assoc [] ys zs = refl
append_assoc (x ∷ xs) ys zs = ap (◌∷◌ x) (append_assoc xs ys zs)

-- Cutting a string again to a length that it was cut to.
resize_string-append :
    (n : ℕ) (bs es : List ℕ) → resize_string n (resize_string n bs ++ es) ≡ resize_string n bs
unfolding resize_string
resize_string-append zero bs es = refl
resize_string-append (suc n) [] es = ap (◌∷◌ 0) (resize_string-append n [] es)
resize_string-append (suc n) (b ∷ bs) es = ap (◌∷◌ b) (resize_string-append n bs es)

resize_string_idem :
    (n : ℕ) (bs : List ℕ) → resize_string n (resize_string n bs) ≡ resize_string n bs
resize_string_idem n bs =
    ap (resize_string n) (sym (append_nil (resize_string n bs))) ∙ resize_string-append n bs []

-- Without what is shown of the line so far.
abbrev pub core : Lines → Lines
core s = record s { capturebuf = resize_string s.line_start s.capturebuf }

module _ (encode : ℕ → List ℕ) where
  append_unichar_lem :
      (str cs : List ℕ) → (es : List ℕ) × (append_unichar_vector_to_utf8 encode str cs ≡ str ++ es)
  unfolding append_unichar_vector_to_utf8
  append_unichar_lem str [] = ([], sym (append_nil str))
  append_unichar_lem str (c ∷ cs) =
      let (es, e) = append_unichar_lem (str ++ encode c) cs in
      (encode c ++ es, e ∙ append_assoc str (encode c) es)

  pub core-paste : (s : Lines) → core (paste encode s) ≡ core s
  unfolding paste
  core-paste s =
      let (es, e) = append_unichar_lem (resize_string s.line_start s.capturebuf) s.linevec in
      ap (λ b. record s { capturebuf = b })
        (ap (resize_string s.line_start) e ∙ resize_string-append s.line_start s.capturebuf es)

  pub paste-core : (s : Lines) → paste encode (core s) ≡ paste encode s
  unfolding paste
  paste-core s =
      ap (λ b. record s { capturebuf = append_unichar_vector_to_utf8 encode b s.linevec })
        (resize_string_idem s.line_start s.capturebuf)

  pub line_discipline-core :
      (c : ℕ) (s : Lines)
      → core (line_discipline encode c (core s)) ≡ core (line_discipline encode c s)
  unfolding line_discipline start_line put_char paste
  line_discipline-core c s =
      let i = resize_string_idem s.line_start s.capturebuf in
      elim (Bool-cases (c == 8)) [
        | inl h ↦
            rw h (elim (Bool-cases (ltb 0 s.cursor)) [
              | inl k ↦ rw (k, i) refl
              | inr k ↦ rw (k, i) refl
            ])
        | inr h ↦ elim (Bool-cases (c == 13)) [
          | inl k ↦ rw (h, k, i) refl
          | inr k ↦ elim (Bool-cases (c == 10)) [
            | inl l ↦ rw (h, k, l, i) refl
            | inr l ↦ elim (Bool-cases (c == 1 || c == 2)) [
              | inl m ↦ rw (h, k, l, m, i) refl
              | inr m ↦
                  rw (h, k, l, m)
                    (elim (Bool-cases (ltb s.cursor (length s.linevec))) [
                      | inl n ↦ rw (n, i) refl
                      | inr n ↦ rw (n, i) refl
                    ])
            ]
          ]
        ]
      ]
