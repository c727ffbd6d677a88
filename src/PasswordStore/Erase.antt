-- ===== src/PasswordStore/Erase.antt =====
-- `PWStore::erase` of src/PasswordRAMStore.cc takes one password from the map.
use mathlib.Core.Path.{subst}
use gparted_android.Prelude.{
  ℕ, ◌+◌, ◌≤◌, ◌≡◌, refl, sym, ap, ◌∙◌, if◌then◌else◌, true, false, Option, none, some, List, [],
  ◌∷◌, length, arith, Bool-cases, Option-cases, inl, inr, replicate, length-replicate,
}
use gparted_android.Prelude.Text.{Text, text_eq, text_eq_sym, text_eq→eq}
use gparted_android.PasswordStore.{PwEntry, PwStore, find_key, remove_key, erase, lookup}
use gparted_android.PasswordStore.Memory.{write, read_string, length-write, read_string-write_after}
use gparted_android.PasswordStore.Valid.{
  Placed, IsValid, ValidMemory, Placed-weaken, Placed-SameReads, passwords, read_at,
  passwords-SameReads, find_key-none,
}
use gparted_android.PasswordStore.Refine.{contents, contents_block, SameReads-before}

abbrev cleared : PwEntry → List ℕ → List ℕ
cleared e mem = write e.password (replicate e.len 0) mem

found_first :
    (k : Text) (f e : PwEntry) (es : List PwEntry)
    → text_eq f.key k ≡ true
    → find_key k (f ∷ es) ≡ some e
    → f ≡ e
unfolding find_key
found_first k f e es t h =
    ap (λ (o : Option PwEntry). elim o [ none ↦ f | some x ↦ x ]) (rw (t, find_key) at h)

found_later :
    (k : Text) (f e : PwEntry) (es : List PwEntry)
    → text_eq f.key k ≡ false
    → find_key k (f ∷ es) ≡ some e
    → find_key k es ≡ some e
unfolding find_key
found_later k f e es t h = rw (t, find_key) at h

found_above :
    (lo : ℕ) (k : Text) (e : PwEntry) (es : List PwEntry) (mem : List ℕ)
    → Placed lo es mem
    → find_key k es ≡ some e
    → lo ≤ e.password
found_above lo k e [] mem p h = unfold find_key in cc h
found_above lo k e (f ∷ es) mem p h = elim (Bool-cases (text_eq f.key k)) [
  | inl t ↦ rw (ap (λ (x : PwEntry). x.password) (found_first k f e es t h)) at (p.0)
  | inr t ↦
      omega
        (arith, p.0, found_above (f.password + f.len + 1) k e es mem p.4 (found_later k f e es t h))
]

remove_none :
    (j k : Text) (es : List PwEntry) → find_key j es ≡ none → find_key j (remove_key k es) ≡ none
unfolding find_key
remove_none j k [] h = refl
remove_none j k (f ∷ es) h =
    let (t, r) = find_key-none j f es h in
    elim (Bool-cases (text_eq f.key k)) [
      | inl u ↦ rw u r
      | inr u ↦ rw (u, t) (remove_none j k es r)
    ]

-- What is left of the entries after `e` was erased.
abbrev Left : ℕ → Text → List PwEntry → List ℕ → PwEntry → Type 0
Left lo k es mem e =
    Placed lo (remove_key k es) (cleared e mem)
    × ((j : Text)
        → passwords (remove_key k es) (cleared e mem) j
          ≡ (if text_eq k j then none else passwords es mem j))

first_gone :
    (k j : Text) (f : PwEntry) (es : List PwEntry) (mem : List ℕ)
    → find_key f.key es ≡ none
    → f.key ≡ k
    → passwords es mem j ≡ (if text_eq k j then none else passwords (f ∷ es) mem j)
unfolding find_key
first_gone k j f es mem h e = elim (Bool-cases (text_eq k j)) [
  | inl t ↦ rw (t, ← text_eq→eq k j t) (ap (read_at mem) (subst (λ x. find_key x es ≡ none) e h))
  | inr t ↦ rw (t, subst (λ x. text_eq x j ≡ false) (sym e) t) refl
]

first-Left :
    (lo : ℕ) (k : Text) (f : PwEntry) (es : List PwEntry) (mem : List ℕ)
    → Placed lo (f ∷ es) mem
    → text_eq f.key k ≡ true
    → Left lo k (f ∷ es) mem f
first-Left lo k f es mem p t =
    let l = length-replicate {A = ℕ} f.len 0 in
    let s =
      SameReads-before (f.password + f.len + 1) f.password es (replicate f.len 0) mem p.4
        (omega (arith, l)) in
    rw t (
      (
        Placed-weaken (f.password + f.len + 1) lo es _ (omega (arith, p.0))
            (Placed-SameReads _ es mem _ (length-write f.password (replicate f.len 0) mem) s p.4),
        λ j. passwords-SameReads es mem _ j s ∙ first_gone k j f es mem p.3 (text_eq→eq f.key k t),
      ))

later_passwords :
    (k j : Text) (f : PwEntry) (es : List PwEntry) (mem mem' : List ℕ)
    → text_eq f.key k ≡ false
    → read_string mem' f.password ≡ read_string mem f.password
    → passwords (remove_key k es) mem' j ≡ (if text_eq k j then none else passwords es mem j)
    → passwords (f ∷ remove_key k es) mem' j
      ≡ (if text_eq k j then none else passwords (f ∷ es) mem j)
unfolding find_key
later_passwords k j f es mem mem' t r h = elim (Bool-cases (text_eq f.key j)) [
  | inl u ↦ rw (u, text_eq_sym k j, ← text_eq→eq f.key j u, t) (ap some r)
  | inr u ↦ rw u h
]

-- Erasing what is found leaves the others.
pub erase-Left :
    (lo : ℕ) (k : Text) (e : PwEntry) (es : List PwEntry) (mem : List ℕ)
    → Placed lo es mem
    → find_key k es ≡ some e
    → Left lo k es mem e
erase-Left lo k e [] mem p h = unfold find_key in cc h
erase-Left lo k e (f ∷ es) mem p h = elim (Bool-cases (text_eq f.key k)) [
  | inl t ↦ subst (Left lo k (f ∷ es) mem) (found_first k f e es t h) (first-Left lo k f es mem p t)
  | inr t ↦
      let g = found_later k f e es t h in
      let (q, c) = erase-Left (f.password + f.len + 1) k e es mem p.4 g in
      let n = length-write e.password (replicate e.len 0) mem in
      let r =
        read_string-write_after f.password e.password (replicate e.len 0) mem
          (omega (arith, p.1, found_above (f.password + f.len + 1) k e es mem p.4 g)) in
      rw t (
        (
          (p.0, ap length r ∙ p.1, omega (arith, p.2, n), remove_none f.key k es p.3, q),
          λ j. later_passwords k j f es mem _ t r (c j),
        ))
]

abbrev parts : List PwEntry → Option (List ℕ) → PwStore
parts es m = record { pw_entries = es; protected_mem = m }

-- The store without a key: it is valid, the key has no password, and the others have theirs.
abbrev pub Erased : Text → PwStore → PwStore → Type 0
Erased k s s' =
    IsValid s' × ((j : Text) → contents s' j ≡ (if text_eq k j then none else contents s j))

no_passwords : (j : Text) → contents (parts [] none) j ≡ none
unfolding contents lookup find_key
no_passwords j = refl

absent :
    (k j : Text) (es : List PwEntry) (mem : List ℕ)
    → find_key k es ≡ none
    → passwords es mem j ≡ (if text_eq k j then none else passwords es mem j)
absent k j es mem f = elim (Bool-cases (text_eq k j)) [
  | inl t ↦ rw (t, ← text_eq→eq k j t) (ap (read_at mem) f)
  | inr t ↦ rw t refl
]

erase_found :
    (k : Text) (e : PwEntry) (es : List PwEntry) (mem : List ℕ)
    → find_key k es ≡ some e
    → (erase k (parts es (some mem))).0 ≡ parts (remove_key k es) (some (cleared e mem))
unfolding erase
erase_found k e es mem f = rw (f, erase) refl

erase_absent :
    (k : Text) (es : List PwEntry) (m : Option (List ℕ))
    → find_key k es ≡ none
    → (erase k (parts es m)).0 ≡ parts es m
unfolding erase
erase_absent k es m f = rw (f, erase) refl

erase-Erased-parts :
    (k : Text) (es : List PwEntry) (m : Option (List ℕ))
    → ValidMemory es m
    → Erased k (parts es m) (erase k (parts es m)).0
erase-Erased-parts k es none v = rw v (
    rw (erase_absent k [] none (unfold find_key in refl))
      (refl, λ j. rw (no_passwords j) (ground arith)))
erase-Erased-parts k es (some mem) v = elim (Option-cases (find_key k es)) [
  | inl f ↦
      rw (erase_absent k es (some mem) f)
        (v, λ j. rw (contents_block es mem j) (absent k j es mem f))
  | inr (e, f) ↦
      let (q, c) = erase-Left 0 k e es mem v.1 f in
      rw (erase_found k e es mem f) (
        (length-write e.password (replicate e.len 0) mem ∙ v.0, q),
        λ j. rw (contents_block es mem j, contents_block (remove_key k es) (cleared e mem) j) (c j),
      )
]

-- Erasing keeps the store valid, takes the password of its key, and leaves every other.
pub erase-Erased : (k : Text) (s : PwStore) → IsValid s → Erased k s (erase k s).0
erase-Erased k s v = erase-Erased-parts k s.pw_entries s.protected_mem v
