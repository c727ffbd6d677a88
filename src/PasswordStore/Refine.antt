-- ===== src/PasswordStore/Refine.antt =====
-- The password store implements a map from keys to passwords: `insert`, `erase` and `store` of
-- src/PasswordRAMStore.cc against the map of what `lookup` points to.
use mathlib.Core.Path.{subst}
use gparted_android.Prelude.{
  ℕ, ◌+◌, ◌≤◌, ◌<◌, ◌≡◌, refl, sym, ap, ◌∙◌, if◌then◌else◌, Bool, true, false, Option, none, some,
  List, [], ◌∷◌, ◌++◌, leb, length, arith, Bool-cases, Option-cases, inl, inr,
}
use gparted_android.Prelude.Text.{Text, text_eq, text_eq_sym, text_eq→eq}
use gparted_android.PasswordStore.{
  PwEntry, PwStore, find_key, next_password, available_len, protected_mem_size, append_entry,
  insert, lookup, string_at,
}
use gparted_android.PasswordStore.Memory.{
  write, read_string, IsString, length-write, read_string-write_self, read_string-write_after,
  read_string-write_before,
}
use gparted_android.PasswordStore.Valid.{
  Placed, IsValid, ValidMemory, after, next_password-eq-after, after-ge, SameReads,
  Placed-SameReads, passwords, passwords-SameReads, find_key-none, find_key-append,
}

-- A write behind all passwords changes none.
SameReads-after :
    (lo at : ℕ) (es : List PwEntry) (bs mem : List ℕ)
    → Placed lo es mem
    → after lo es ≤ at
    → SameReads mem (write at bs mem) es
SameReads-after lo at [] bs mem p h = tt
SameReads-after lo at (e ∷ es) bs mem p h = (
  read_string-write_after e.password at bs mem
      (omega (arith, p.1, h, after-ge (e.password + e.len + 1) es mem p.4)),
  SameReads-after (e.password + e.len + 1) at es bs mem p.4 h,
)

-- So does one in front of all.
pub SameReads-before :
    (lo at : ℕ) (es : List PwEntry) (bs mem : List ℕ)
    → Placed lo es mem
    → at + length bs ≤ lo
    → SameReads mem (write at bs mem) es
SameReads-before lo at [] bs mem p h = tt
SameReads-before lo at (e ∷ es) bs mem p h = (
  read_string-write_before e.password at bs mem (omega (arith, p.0)),
  SameReads-before (e.password + e.len + 1) at es bs mem p.4 (omega (arith, p.0)),
)

-- The passwords by key, as a caller of `lookup` reads them.
abbrev pub pointed : PwStore → Option ℕ → Option (List ℕ)
pointed s none = none
pointed s (some at) = some (string_at s at)

unfoldable pub contents : PwStore → Text → Option (List ℕ)
contents s k = pointed s (lookup k s)

pub contents_block :
    (es : List PwEntry) (mem : List ℕ) (k : Text)
    → contents (record { pw_entries = es; protected_mem = some mem }) k ≡ passwords es mem k
unfolding contents lookup
contents_block es mem k = ground arith

-- The store after a successful `insert`: it is valid, and its map has the new password.
abbrev pub Stored : Text → List ℕ → PwStore → PwStore → Type 0
Stored k pw s s' =
    IsValid s' × ((j : Text) → contents s' j ≡ (if text_eq k j then some pw else contents s j))

abbrev result : PwStore → Bool → Option (PwStore × Bool)
result s b = some (s, b)

store_of : (s s' : PwStore) (a b : Bool) → result s a ≡ result s' b → s ≡ s'
store_of s s' a b h = ap (λ (o : Option (PwStore × Bool)). elim o [ none ↦ s | some r ↦ r.0 ]) h

module _ (k : Text) (pw : List ℕ) (str : IsString pw) where
  abbrev entry : ℕ → PwEntry
  entry at = record { key = k; password = at; len = length pw }

  -- Adding an entry whose password is already in the block, behind the others.
  Placed-append :
      (lo at : ℕ) (es : List PwEntry) (mem : List ℕ)
      → Placed lo es mem
      → find_key k es ≡ none
      → after lo es ≤ at
      → read_string mem at ≡ pw
      → at + length pw < length mem
      → Placed lo (es ++ entry at ∷ []) mem
  unfolding find_key
  Placed-append lo at [] mem p f h r b = (h, ap length r, b, refl, tt)
  Placed-append lo at (e ∷ es) mem p f h r b =
      let (t, g) = find_key-none k e es f in
      (
        p.0,
        p.1,
        p.2,
        find_key-append e.key es (entry at) p.3 (text_eq_sym k e.key ∙ t),
        Placed-append (e.password + e.len + 1) at es mem p.4 g h r b,
      )

  passwords-append :
      (at : ℕ) (es : List PwEntry) (mem : List ℕ) (j : Text)
      → find_key k es ≡ none
      → read_string mem at ≡ pw
      → passwords (es ++ entry at ∷ []) mem j
        ≡ (if text_eq k j then some pw else passwords es mem j)
  unfolding find_key
  passwords-append at [] mem j f r = elim (Bool-cases (text_eq k j)) [
    | inl h ↦ rw h (ap some r)
    | inr h ↦ rw h refl
  ]
  passwords-append at (e ∷ es) mem j f r =
      let (t, g) = find_key-none k e es f in
      elim (Bool-cases (text_eq e.key j)) [
        | inl h ↦ rw (h, other e j t h) refl
        | inr h ↦ rw h (passwords-append at es mem j g r)
      ]
    where
      other :
          (e : PwEntry) (j : Text)
          → text_eq e.key k ≡ false
          → text_eq e.key j ≡ true
          → text_eq k j ≡ false
      other e j t h = rw (← text_eq→eq e.key j h) (text_eq_sym k e.key ∙ t)

  abbrev block : List PwEntry → List ℕ → PwStore
  block es mem = record { pw_entries = es; protected_mem = some mem }

  written :
      (es : List PwEntry) (mem : List ℕ)
      → length mem ≡ protected_mem_size
      → Placed 0 es mem
      → find_key k es ≡ none
      → next_password es + length pw < protected_mem_size
      → Stored k pw (block es mem) (
          block (es ++ entry (next_password es) ∷ []) (write (next_password es) (pw ++ 0 ∷ []) mem))
  written es mem l p f b =
      let at = next_password es in
      let mem' = write at (pw ++ 0 ∷ []) mem in
      let e : after 0 es ≤ at = omega (arith, next_password-eq-after es) in
      let s = SameReads-after 0 at es (pw ++ 0 ∷ []) mem p e in
      let n : length mem' ≡ length mem = length-write at (pw ++ 0 ∷ []) mem in
      let r = read_string-write_self at pw mem str (omega (arith, l)) in
      (
        (
          n ∙ l,
          Placed-append 0 at es mem' (Placed-SameReads 0 es mem mem' n s p) f e r
              (omega (arith, l, n)),
        ),
        λ j.
            contents_block (es ++ entry at ∷ []) mem' j
            ∙ (passwords-append at es mem' j f r
                ∙ ap (λ o. if text_eq k j then some pw else o)
                    (passwords-SameReads es mem mem' j s ∙ sym (contents_block es mem j))),
      )

  append_entry-Stored :
      (es : List PwEntry) (mem : List ℕ) (s : PwStore)
      → length mem ≡ protected_mem_size
      → Placed 0 es mem
      → find_key k es ≡ none
      → append_entry k pw es mem ≡ some (s, true)
      → Stored k pw (block es mem) s
  unfolding append_entry
  append_entry-Stored es mem s l p f h =
      elim (Bool-cases (leb protected_mem_size (next_password es + length pw))) [
        | inl o ↦ cc (rw (o, append_entry) at h)
        | inr o ↦
            subst (Stored k pw (block es mem)) (store_of _ s true true (rw (o, append_entry) at h))
              (written es mem l p f (ground arith))
      ]

  insert-Stored_block :
      (es : List PwEntry) (m : Option (List ℕ)) (s : PwStore)
      → ValidMemory es m
      → insert k pw (record { pw_entries = es; protected_mem = m }) ≡ some (s, true)
      → Stored k pw (record { pw_entries = es; protected_mem = m }) s
  unfolding insert
  insert-Stored_block es none s v h = cc
  insert-Stored_block es (some mem) s v h = elim (Option-cases (find_key k es)) [
    | inr (e, f) ↦ cc (rw (f, insert) at h)
    | inl f ↦ elim (Bool-cases (leb (length pw) (available_len es))) [
      | inl r ↦ append_entry-Stored es mem s v.0 v.1 f (rw (f, insert, r) at h)
      | inr r ↦ cc (rw (f, insert, r) at h)
    ]
  ]

-- A password that `insert` reports as stored is found under its key, every other key keeps its
-- password, and the store stays valid.
pub insert-Stored :
    (k : Text) (pw : List ℕ) (s s' : PwStore)
    → IsString pw
    → IsValid s
    → insert k pw s ≡ some (s', true)
    → Stored k pw s s'
insert-Stored k pw s s' str v h = insert-Stored_block k pw str s.pw_entries s.protected_mem s' v h
