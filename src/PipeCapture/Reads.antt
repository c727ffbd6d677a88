-- ===== src/PipeCapture/Reads.antt =====
-- How the output is cut into reads does not matter (`OnReadable`, src/PipeCapture.cc).
use gparted_android.Prelude.{ℕ, Option, some, List, ◌∷◌}
use gparted_android.PipeCapture.{
  Lines, PipeCapture, Validated, char, partial, invalid, line_discipline, get_utf8_char_validated,
  next_ptr, read_bytes,
}

module _ (encode : ℕ → List ℕ) (validated : List ℕ → Validated)
    (next : List ℕ → Option (List ℕ)) where
  abbrev get : List ℕ → Validated
  get = get_utf8_char_validated encode validated next

  abbrev read : ℕ → List ℕ → Lines → Option (Lines × List ℕ)
  read = read_bytes encode validated next

  abbrev jump : ℕ → List ℕ → List ℕ
  jump = next_ptr encode validated next

  -- A round of the loop, by what GLib says of the first character.
  abbrev round : ℕ → ℕ → List ℕ → Lines → Validated → Option (Lines × List ℕ)
  round fuel b bs s v = elim v [
    | partial ↦ some (s, b ∷ bs)
    | invalid ↦ read fuel bs s
    | char c ↦ read fuel (jump b bs) (line_discipline encode c s)
  ]
