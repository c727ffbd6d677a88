-- ===== src/PipeCapture.antt =====
-- src/PipeCapture.cc: the output of a command, with the line discipline that text progress bars need.
-- Characters are code points, buffers are lists of bytes. GLib's functions on UTF-8 are parameters.
pub mod Discipline
pub mod Overwrite
pub mod Loop
pub mod Characters
pub mod Reads
use gparted_android.Prelude.{
  ℕ, zero, suc, ◌+◌, ◌-◌, if◌then◌else◌, Bool, true, false, ◌&&◌, ◌||◌, Option, none, some, List,
  [], ◌∷◌, ◌++◌, length, set, ltb, leb, ◌==◌,
}

pub record Lines : Type 0 where
  pub linevec : List ℕ
  pub cursor : ℕ
  pub capturebuf : List ℕ
  pub line_start : ℕ

-- `std::string::resize`: a longer string gets NUL characters.
unfoldable pub resize_string : ℕ → List ℕ → List ℕ
resize_string zero bs = []
resize_string (suc n) [] = 0 ∷ resize_string n []
resize_string (suc n) (b ∷ bs) = b ∷ resize_string n bs

-- How many bytes a character has that starts with this byte; `none` is -1 in the source.
unfoldable pub utf8_char_length : ℕ → Option ℕ
utf8_char_length b =
    if ltb b 128
    then some 1
    else if ltb b 192
    then none
    else if ltb b 224
    then some 2
    else if ltb b 240
    then some 3
    else if ltb b 248
    then some 4
    else if ltb b 252
    then some 5
    else if ltb b 254
    then some 6
    else none

-- The state: the bytes kept at the start of the read buffer are `kept`.
pub record PipeCapture : Type 0 where
  pub lines : Lines
  pub kept : List ℕ
  pub callerbuf : List ℕ
  pub callerbuf_uptodate : Bool

-- What the read of the channel gives.
pub data Status : Type 0 where
  normal : List ℕ → Status
  eof failed : Status

abbrev pub update_callerbuf : PipeCapture → PipeCapture
update_callerbuf p = record p { callerbuf = p.lines.capturebuf; callerbuf_uptodate = true }

-- The end of the output; the callback for it is fired.
unfoldable pub finish : PipeCapture → PipeCapture
finish p = if p.callerbuf_uptodate then p else update_callerbuf p

pub data Validated : Type 0 where
  char : ℕ → Validated
  partial invalid : Validated

-- The end of a line, after its newline character is appended.
unfoldable pub start_line : Lines → Lines
start_line s = record s { line_start = length s.capturebuf; linevec = []; cursor = 0 }

unfoldable pub put_char : ℕ → Lines → Lines
put_char c s =
    if ltb s.cursor (length s.linevec)
    then record s { linevec = set s.linevec s.cursor c; cursor = s.cursor + 1 }
    else record s { linevec = s.linevec ++ c ∷ []; cursor = s.cursor + 1 }

module _ (g_unichar_to_utf8 : ℕ → List ℕ) where
  unfoldable pub append_unichar_vector_to_utf8 : List ℕ → List ℕ → List ℕ
  append_unichar_vector_to_utf8 str [] = str
  append_unichar_vector_to_utf8 str (c ∷ cs) =
      append_unichar_vector_to_utf8 (str ++ g_unichar_to_utf8 c) cs

  -- The line so far takes the place of what stands from the start of the last line on.
  unfoldable pub paste : Lines → Lines
  paste s = record s {
    capturebuf = append_unichar_vector_to_utf8 (resize_string s.line_start s.capturebuf) s.linevec;
  }

  -- One character: backspace, carriage return, newline, Ctrl-A and Ctrl-B, and any other.
  unfoldable pub line_discipline : ℕ → Lines → Lines
  unfolding paste start_line put_char
  line_discipline c s =
      if c == 8
      then if ltb 0 s.cursor then record s { cursor = s.cursor - 1 } else s
      else if c == 13
      then record s { cursor = 0 }
      else if c == 10
      then start_line (paste (record s { linevec = s.linevec ++ 10 ∷ []; cursor = s.cursor + 1 }))
      else if c == 1 || c == 2
      then s
      else put_char c s

  unfoldable pub run : List ℕ → Lines → Lines
  run [] s = s
  run (c ∷ cs) s = run cs (line_discipline c s)

  module _ (g_utf8_get_char_validated : List ℕ → Validated)
      (g_utf8_find_next_char : List ℕ → Option (List ℕ)) where
    abbrev starts_with_nul : List ℕ → Bool
    starts_with_nul [] = false
    starts_with_nul (b ∷ bs) = b == 0

    abbrev is_whole : List ℕ → Bool
    is_whole [] = false
    is_whole (b ∷ bs) = elim (utf8_char_length b) [ none ↦ true | some n ↦ leb n (length (b ∷ bs)) ]

    -- The argument is what is left between the read pointer and the end pointer.
    unfoldable pub get_utf8_char_validated : List ℕ → Validated
    get_utf8_char_validated bs = elim (g_utf8_get_char_validated bs) [
      | char c ↦ char c
      | invalid ↦ invalid
      | partial ↦ if starts_with_nul bs then char 0 else if is_whole bs then invalid else partial
    ]

    -- The read pointer past a character that starts with `b`; a null pointer is the end.
    abbrev pub next_ptr : ℕ → List ℕ → List ℕ
    next_ptr b bs = elim (g_utf8_find_next_char (b ∷ bs)) [
      | none ↦ []
      | some r ↦ if length r == length (b ∷ bs) && b == 0 then bs else r
    ]

    -- The loop on the bytes of one read, on fuel: the lines, and the bytes that are kept for the next.
    unfoldable pub read_bytes : ℕ → List ℕ → Lines → Option (Lines × List ℕ)
    unfolding get_utf8_char_validated
    read_bytes fuel [] s = some (s, [])
    read_bytes zero (b ∷ bs) s = none
    read_bytes (suc fuel) (b ∷ bs) s = elim (get_utf8_char_validated (b ∷ bs)) [
      | partial ↦ some (s, b ∷ bs)
      | invalid ↦ read_bytes fuel bs s
      | char c ↦ read_bytes fuel (next_ptr b bs) (line_discipline c s)
    ]

    -- The line so far is shown, and given to the caller if a callback for updates is registered.
    abbrev pub after_read : Bool → PipeCapture → Lines × List ℕ → PipeCapture
    after_read has_update p (s, kept) =
        let q : PipeCapture = record p {
          lines = paste s;
          kept = kept;
          callerbuf_uptodate = false;
        } in
        if has_update then update_callerbuf q else q

    -- The new state, and whether the source of events stays; `has_update` says whether a callback for
    -- updates is registered.
    unfoldable pub on_readable : Bool → Status → PipeCapture → Option (PipeCapture × Bool)
    unfolding read_bytes finish
    on_readable has_update eof p = some (finish p, false)
    on_readable has_update failed p = some (finish p, false)
    on_readable has_update (normal bytes) p =
        elim (read_bytes (length (p.kept ++ bytes)) (p.kept ++ bytes) p.lines) [
          | none ↦ none
          | some r ↦ some (after_read has_update p r, true)
        ]
