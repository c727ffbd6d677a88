-- ===== src/PipeCapture/Characters.antt =====
-- What is assumed of the functions of GLib on UTF-8, and how src/PipeCapture.cc judges a character by them.
use gparted_android.Prelude.{
  ℕ, suc, ◌≡◌, ◌⊎◌, refl, true, false, ◌&&◌, Bool, Option, none, some, List, [], ◌∷◌, ◌++◌, length,
  length-append, leb, ◌==◌, inl, inr, arith, if◌then◌else◌,
}
use gparted_android.PipeCapture.{Validated, char, partial, invalid, utf8_char_length}

-- The bytes of a character are all there, or it begins with NUL.
abbrev pub IsSettled : ℕ → List ℕ → Type 0
IsSettled b bs =
    (b ≡ 0)
    ⊎ ((elim (utf8_char_length b) [ none ↦ true | some n ↦ leb n (length (b ∷ bs)) ]) ≡ true)

-- What GLib says of the first character does not depend on the bytes behind it.
pub record IsLocal (validated : List ℕ → Validated) (next : List ℕ → Option (List ℕ)) : Type 0 where
  pub char_more :
      (b c : ℕ) (bs ys : List ℕ) → validated (b ∷ bs) ≡ char c → validated (b ∷ (bs ++ ys)) ≡ char c
  pub invalid_more :
      (b : ℕ) (bs ys : List ℕ) → validated (b ∷ bs) ≡ invalid → validated (b ∷ (bs ++ ys)) ≡ invalid
  pub partial_more :
      (b : ℕ) (bs ys : List ℕ)
      → validated (b ∷ bs) ≡ partial
      → IsSettled b bs
      → validated (b ∷ (bs ++ ys)) ≡ partial
  pub next_more :
      (b : ℕ) (bs r ys : List ℕ) → next (b ∷ bs) ≡ some r → next (b ∷ (bs ++ ys)) ≡ some (r ++ ys)
  pub next_end :
      (b y : ℕ) (bs ys : List ℕ)
      → next (b ∷ bs) ≡ none
      → next (b ∷ (bs ++ (y ∷ ys))) ≡ some (y ∷ ys)

pub Validated-cases : (v : Validated) → (v ≡ partial) ⊎ (v ≡ invalid) ⊎ ((c : ℕ) × (v ≡ char c))
Validated-cases partial = inl refl
Validated-cases invalid = inr (inl refl)
Validated-cases (char c) = inr (inr (c, refl))

abbrev pub whole : ℕ → List ℕ → Bool
whole b bs = elim (utf8_char_length b) [ none ↦ true | some n ↦ leb n (length (b ∷ bs)) ]

pub whole-more : (b : ℕ) (bs ys : List ℕ) → whole b bs ≡ true → whole b (bs ++ ys) ≡ true
whole-more b bs ys h = by_length (utf8_char_length b) h
  where
    by_length :
        (o : Option ℕ)
        → (elim o [ none ↦ true | some n ↦ leb n (length (b ∷ bs)) ]) ≡ true
        → (elim o [ none ↦ true | some n ↦ leb n (length (b ∷ (bs ++ ys))) ]) ≡ true
    by_length none k = refl
    by_length (some n) k = ground (arith, length-append bs ys)

-- The judgement of a character that begins with `b`, by what GLib says of it.
abbrev pub judged : ℕ → List ℕ → Validated → Validated
judged b bs v = elim v [
  | char c ↦ char c
  | invalid ↦ invalid
  | partial ↦ if b == 0 then char 0 else if whole b bs then invalid else partial
]

-- The bytes behind a character, by what GLib finds.
abbrev pub leapt : ℕ → List ℕ → Option (List ℕ) → List ℕ
leapt b bs o = elim o [
  | none ↦ []
  | some r ↦ if length r == length (b ∷ bs) && b == 0 then bs else r
]

pub longer : (y : ℕ) (bs ys : List ℕ) → (length (y ∷ ys) == suc (length (bs ++ (y ∷ ys)))) ≡ false
longer y bs ys = ground (arith, length-append bs (y ∷ ys))

pub same_more :
    (r bs ys : List ℕ)
    → (length (r ++ ys) == suc (length (bs ++ ys))) ≡ (length r == suc (length bs))
same_more r bs ys = ground (arith, length-append r ys, length-append bs ys)
