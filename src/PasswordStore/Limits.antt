-- ===== src/PasswordStore/Limits.antt =====
-- How much room `PWStore::insert` of src/PasswordRAMStore.cc takes the block to have. After the first
-- password it computes `next_password - protected_mem - 1`, the length of what is before the new
-- password, where the room behind it is meant.
use gparted_android.Prelude.{
  ℕ, ◌+◌, ◌-◌, ◌≤◌, ◌<◌, ◌≡◌, refl, ◌∙◌, Option-cases, Bool, true, false, Option, none, some, List,
  [], ◌∷◌, ◌++◌, leb, length, last?, arith, Bool-cases, inl, inr,
}
use gparted_android.Prelude.Text.{Text}
use gparted_android.PasswordStore.{
  PwEntry, PwStore, find_key, next_password, available_len, protected_mem_size, append_entry,
  insert,
}
use gparted_android.PasswordStore.Memory.{write}

le→leb : (a b : ℕ) → a ≤ b → leb a b ≡ true
le→leb a b h = ground arith

leb→le : (a b : ℕ) → leb a b ≡ true → a ≤ b
leb→le a b h = ground arith

lt→leb : (a b : ℕ) → b < a → leb a b ≡ false
lt→leb a b h = ground arith

next_none : (es : List PwEntry) → last? es ≡ none → next_password es ≡ 0
next_none es h = rw (h, next_password) refl

available_some :
    (es : List PwEntry) (e : PwEntry)
    → last? es ≡ some e
    → (available_len es ≡ next_password es - 1) × (0 < next_password es)
available_some es e h = rw (h, available_len, next_password) (omega arith)

available_none : (es : List PwEntry) → last? es ≡ none → available_len es ≡ protected_mem_size - 1
available_none es h = rw (h, available_len) refl

module _ (k : Text) (pw : List ℕ) (es : List PwEntry) (mem : List ℕ) where
  abbrev block : PwStore
  block = record { pw_entries = es; protected_mem = some mem }

  insert_room :
      find_key k es ≡ none
      → leb (length pw) (available_len es) ≡ true
      → insert k pw block ≡ append_entry k pw es mem
  unfolding insert
  insert_room f h = rw (f, insert, h) refl

  insert_no_room :
      find_key k es ≡ none
      → leb (length pw) (available_len es) ≡ false
      → insert k pw block ≡ some (block, false)
  unfolding insert
  insert_no_room f h = rw (f, insert, h) refl

  append_entry_overrun :
      protected_mem_size ≤ next_password es + length pw → append_entry k pw es mem ≡ none
  unfolding append_entry
  append_entry_overrun h =
      rw (le→leb protected_mem_size (next_password es + length pw) h, append_entry) refl

  -- With passwords in the store, a new one that is shorter than what is before it, and that does not
  -- fit behind it, is written past the end of the block.
  pub insert_overruns :
      (e : PwEntry)
      → last? es ≡ some e
      → find_key k es ≡ none
      → length pw < next_password es
      → protected_mem_size ≤ next_password es + length pw
      → insert k pw (record { pw_entries = es; protected_mem = some mem }) ≡ none
  insert_overruns e h f l o =
      insert_room f (le→leb _ _ (omega (arith, available_some es e h))) ∙ append_entry_overrun o

-- No room is computed for a password that would not fit, while the store is not half full.
room_inside :
    (es : List PwEntry) (len : ℕ)
    → next_password es + next_password es ≤ protected_mem_size
    → len ≤ available_len es
    → next_password es + len < protected_mem_size
room_inside es len h l = elim (Option-cases (last? es)) [
  | inl n ↦ omega (arith, next_none es n, available_none es n)
  | inr (e, f) ↦ omega (arith, available_some es e f)
]

insert_total_parts :
    (k : Text) (pw : List ℕ) (es : List PwEntry) (m : Option (List ℕ))
    → next_password es + next_password es ≤ protected_mem_size
    → (r : PwStore × Bool) × (insert k pw (record { pw_entries = es; protected_mem = m }) ≡ some r)
unfolding insert append_entry
insert_total_parts k pw es none h =
    ((record { pw_entries = es; protected_mem = none }, false), refl)
insert_total_parts k pw es (some mem) h = elim (Option-cases (find_key k es)) [
  | inr (e, f) ↦ ((block k pw es mem, false), rw (f, insert) refl)
  | inl f ↦ elim (Bool-cases (leb (length pw) (available_len es))) [
    | inr r ↦ ((block k pw es mem, false), insert_no_room k pw es mem f r)
    | inl r ↦ (
      (
        record {
          pw_entries = es ++ record { key = k; password = next_password es; len = length pw } ∷ [];
          protected_mem = some (write (next_password es) (pw ++ 0 ∷ []) mem);
        },
        true,
      ),
      insert_room k pw es mem f r
          ∙ rw
              (
                lt→leb protected_mem_size (next_password es + length pw)
                    (room_inside es (length pw) h (leb→le _ _ r)),
                append_entry,
              )
              refl,
    )
  ]
]

-- While the passwords take no more than half of the block, `insert` never writes past its end.
pub insert_total :
    (k : Text) (pw : List ℕ) (s : PwStore)
    → next_password s.pw_entries + next_password s.pw_entries ≤ protected_mem_size
    → (r : PwStore × Bool) × (insert k pw s ≡ some r)
insert_total k pw s h = insert_total_parts k pw s.pw_entries s.protected_mem h
