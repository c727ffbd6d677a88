-- ===== src/Prelude/Text.antt =====
-- `Glib::ustring` as the list of its code points, with the operations that the program calls.
use Prim.Native.Char.{code}
use Prim.Native.String.{String}
use gparted_android.Prelude.{
  ℕ, ◌+◌, ◌≡◌, refl, Bool, true, false, Option, none, some, List, [], ◌∷◌, ◌++◌, ◌&&◌, arith, ◌==◌,
  take, drop, if◌then◌else◌,
}

abbrev pub Text : Type 0
Text = List ℕ

abbrev pub codes : String → Text
codes String.[] = []
codes (String.◌∷◌ c s) = code c ∷ codes s

unfoldable pub text_eq : Text → Text → Bool
text_eq [] [] = true
text_eq (a ∷ s) (b ∷ t) = (a == b) && text_eq s t
text_eq _ _ = false

pub text_eq_refl : (s : Text) → text_eq s s ≡ true
unfolding text_eq
text_eq_refl [] = refl
text_eq_refl (a ∷ s) = ground (arith, text_eq_refl s)

pub text_eq→eq : (s t : Text) → text_eq s t ≡ true → s ≡ t
unfolding text_eq
text_eq→eq [] [] h = refl
text_eq→eq [] (b ∷ t) h = ground arith
text_eq→eq (a ∷ s) [] h = ground arith
text_eq→eq (a ∷ s) (b ∷ t) h = ground (arith, text_eq→eq s t)

-- Whether the second text begins with the first.
unfoldable pub is_prefix : Text → Text → Bool
is_prefix [] t = true
is_prefix (a ∷ s) [] = false
is_prefix (a ∷ s) (b ∷ t) = (a == b) && is_prefix s t

-- `rfind`: where the last occurrence of `s` begins in the text, counted from `i`.
rfind_from : ℕ → Text → Text → Option ℕ
rfind_from i s [] = if is_prefix s [] then some i else none
rfind_from i s (b ∷ t) = elim (rfind_from (i + 1) s t) [
  | some j ↦ some j
  | none ↦ if is_prefix s (b ∷ t) then some i else none
]

unfoldable pub rfind : Text → Text → Option ℕ
unfolding rfind_from is_prefix
rfind t s = rfind_from 0 s t

-- `t.replace(index, len, s)`.
unfoldable pub replace : Text → ℕ → ℕ → Text → Text
replace t index len s = take index t ++ s ++ drop (index + len) t

pub text_eq_sym : (s t : Text) → text_eq s t ≡ text_eq t s
unfolding text_eq
text_eq_sym [] [] = refl
text_eq_sym [] (b ∷ t) = refl
text_eq_sym (a ∷ s) [] = refl
text_eq_sym (a ∷ s) (b ∷ t) = ground (arith, text_eq_sym s t)
