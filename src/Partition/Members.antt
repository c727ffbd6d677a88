-- ===== src/Partition/Members.antt =====
-- The label, flags, mount points and messages of a partition: src/Partition.cc and the accessors in
-- include/Partition.h.
use gparted_android.Prelude.{
  if◌then◌else◌, Bool, true, false, ◌||◌, List, [], ◌∷◌, ◌++◌, ◌≡◌, refl, Bool-cases, inl, inr,
  arith,
}
use gparted_android.Prelude.Text.{Text, text_eq, text_eq_refl, text_eq→eq}
use gparted_android.Partition.{Attributes}

unfoldable pub get_filesystem_label : Attributes → Text
get_filesystem_label a = if a.have_filesystem_label then a.filesystem_label else []

unfoldable pub set_filesystem_label : Text → Attributes → Attributes
set_filesystem_label label a = record a { filesystem_label = label; have_filesystem_label = true }

flag_in : Text → List Text → Bool
flag_in flag [] = false
flag_in flag (f ∷ fs) = if text_eq f flag then true else flag_in flag fs

unfoldable pub is_flag_set : Text → Attributes → Bool
unfolding flag_in
is_flag_set flag a = flag_in flag a.flags

unfoldable pub set_only_flag : Text → Attributes → Attributes
set_only_flag flag a = record a { flags = flag ∷ [] }

unfoldable pub set_flag : Text → Attributes → Attributes
unfolding is_flag_set
set_flag flag a = if is_flag_set flag a then a else record a { flags = a.flags ++ flag ∷ [] }

unfoldable pub set_flags : List Text → Attributes → Attributes
set_flags fs a = record a { flags = fs }

unfoldable pub set_path : Text → Attributes → Attributes
set_path p a = record a { path = p }

unfoldable pub clear_all_flags : Attributes → Attributes
clear_all_flags a = record a { flags = [] }

unfoldable pub add_mountpoint : Text → Attributes → Attributes
add_mountpoint m a = record a { mountpoints = a.mountpoints ++ m ∷ [] }

unfoldable pub add_mountpoints : List Text → Attributes → Attributes
add_mountpoints ms a = record a { mountpoints = a.mountpoints ++ ms }

unfoldable pub get_mountpoint : Attributes → Text
get_mountpoint a = elim a.mountpoints [ [] ↦ [] | m ∷ ms ↦ m ]

unfoldable pub clear_mountpoints : Attributes → Attributes
clear_mountpoints a = record a { mountpoints = [] }

unfoldable pub push_back_message : Text → Attributes → Attributes
push_back_message m a = record a { messages = a.messages ++ m ∷ [] }

unfoldable pub append_messages : List Text → Attributes → Attributes
append_messages ms a = record a { messages = a.messages ++ ms }

flag_in-append :
    (flag other : Text) (fs : List Text)
    → flag_in other (fs ++ flag ∷ []) ≡ (text_eq flag other || flag_in other fs)
unfolding flag_in
flag_in-append flag other [] = ground arith
flag_in-append flag other (f ∷ fs) = ground (arith, flag_in-append flag other fs)

-- `set_flag` sets its flag, changes whether no other flag is set, and does nothing the second time.
pub set_flag_lem :
    (flag other : Text) (a : Attributes)
    → (is_flag_set other (set_flag flag a) ≡ (text_eq flag other || is_flag_set other a))
      × (set_flag flag (set_flag flag a) ≡ set_flag flag a)
unfolding set_flag is_flag_set
set_flag_lem flag other a = elim (Bool-cases (is_flag_set flag a)) [
  | inl h ↦ (
    rw h (elim (Bool-cases (text_eq flag other)) [
      | inl t ↦ rw (t, ← text_eq→eq flag other t) h
      | inr t ↦ rw t refl
    ]),
    ground arith,
  )
  | inr h ↦ (
    rw h (flag_in-append flag other a.flags),
    ground (arith, flag_in-append flag flag a.flags, text_eq_refl flag),
  )
]
