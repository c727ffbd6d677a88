-- ===== src/Adb/Calibrate.antt =====
-- `calibrate_partition` (src/GParted_Core_Adb.cc), which reads the table that parted prints.
use gparted_android.Prelude.{
  ℕ, ◌+◌, ◌-◌, ◌*◌, Bool, true, false, ◌&&◌, ◌||◌, not, if◌then◌else◌, Option, none, some, List, [],
  ◌∷◌, ◌++◌, ◌==◌, leb,
}
use gparted_android.Prelude.Int.{ℤ, pos, ◌-ℤ◌, ltb_ℤ}
use gparted_android.Prelude.Text.{Text, codes, is_prefix, text_eq}
use gparted_android.Utils.{num_to_str}
use gparted_android.Partition.{Attributes}
use gparted_android.Adb.{Phone, Run, pure, ◌>>=◌, branch}
use gparted_android.Adb.Command.{print_device}

abbrev pub onto_first : ℕ → List Text → List Text
onto_first c [] = (c ∷ []) ∷ []
onto_first c (l ∷ ls) = (c ∷ l) ∷ ls

-- The lines that `std::getline` reads one after the other.
unfoldable pub lines : Text → List Text
lines [] = []
lines (c ∷ t) = let rest = lines t in if c == 10 then [] ∷ rest else onto_first c rest

abbrev pub is_space : ℕ → Bool
is_space c = (c == 32) || (leb 9 c && leb c 13)

unfoldable pub skip_spaces : Text → Text
skip_spaces [] = []
skip_spaces (c ∷ t) = let rest = skip_spaces t in if is_space c then rest else c ∷ t

unfoldable pub up_to_space : Text → Text
up_to_space [] = []
up_to_space (c ∷ t) = let rest = up_to_space t in if is_space c then [] else c ∷ rest

-- `ls >> token`
unfoldable pub first_token : Text → Text
unfolding skip_spaces up_to_space
first_token line = up_to_space (skip_spaces line)

abbrev pub is_digit : ℕ → Bool
is_digit c = leb 48 c && leb c 57

unfoldable pub number_of_digits : ℕ → Text → ℕ
number_of_digits n [] = n
number_of_digits n (c ∷ t) =
    let rest = number_of_digits (n * 10 + (c - 48)) t in if is_digit c then rest else n

-- `std::atoi` of a text without spaces. What does not fit into an `int` is undefined in the source.
unfoldable pub atoi : Text → ℤ
unfolding number_of_digits
atoi [] = pos 0
atoi (c ∷ t) =
    if c == 45
    then pos 0 -ℤ pos (number_of_digits 0 t)
    else if c == 43
    then pos (number_of_digits 0 t)
    else pos (number_of_digits 0 (c ∷ t))

-- The number in the first row of the table that has one.
unfoldable pub first_number : Bool → List Text → Option ℤ
unfolding is_prefix text_eq first_token atoi
first_number in_table [] = none
first_number in_table (line ∷ rest) =
    let in_head = first_number true rest in
    let after = first_number in_table rest in
    if is_prefix (codes "Number") line
    then in_head
    else if in_table && not (text_eq line []) && ltb_ℤ (pos 0) (atoi (first_token line))
    then some (atoi (first_token line))
    else after

abbrev pub with_number : Attributes → Option ℤ → Attributes
with_number p none = p
with_number p (some n) = record p { partition_number = n; path = p.device_path ++ num_to_str n }

abbrev pub is_unnumbered : Attributes → Bool
is_unnumbered p = text_eq p.path [] || ltb_ℤ p.partition_number (pos 1)

-- It always returns true; the result is the partition.
unfoldable pub calibrate_partition : Phone → Attributes → Run Attributes
calibrate_partition w p =
    branch (is_unnumbered p)
      (print_device w p.device_path >>= λ output.
        pure (with_number p (first_number false (lines output))))
      (pure p)
