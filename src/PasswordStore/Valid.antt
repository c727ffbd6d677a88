-- ===== src/PasswordStore/Valid.antt =====
-- The layout of the password store that the comment in src/PasswordRAMStore.cc describes.
use gparted_android.Prelude.{
  ℕ, ◌+◌, ◌≤◌, ◌<◌, ◌≡◌, refl, ap, ◌∙◌, false, Option, none, some, List, [], ◌∷◌, ◌++◌, length, All,
  arith, Bool-cases, inl, inr,
}
use gparted_android.Prelude.Text.{Text, text_eq}
use gparted_android.PasswordStore.{PwEntry, PwStore, find_key, next_password, protected_mem_size}
use gparted_android.PasswordStore.Memory.{read_string}

-- Entries and passwords are in the same order and apart, each password is as long as its entry says
-- and lies in the block, and no key is there twice.
abbrev pub Placed : ℕ → List PwEntry → List ℕ → Type 0
Placed lo [] mem = Unit
Placed lo (e ∷ es) mem =
    (lo ≤ e.password)
    × (length (read_string mem e.password) ≡ e.len)
    × (e.password + e.len < length mem)
    × (find_key e.key es ≡ none)
    × Placed (e.password + e.len + 1) es mem

abbrev pub ValidMemory : List PwEntry → Option (List ℕ) → Type 0
ValidMemory es none = es ≡ []
ValidMemory es (some mem) = (length mem ≡ protected_mem_size) × Placed 0 es mem

abbrev pub IsValid : PwStore → Type 0
IsValid s = ValidMemory s.pw_entries s.protected_mem

-- The offset behind the last password.
abbrev pub after : ℕ → List PwEntry → ℕ
after lo [] = lo
after lo (e ∷ es) = after (e.password + e.len + 1) es

pub next_password-eq-after : (es : List PwEntry) → next_password es ≡ after 0 es
next_password-eq-after [] = refl
next_password-eq-after (e ∷ []) = refl
next_password-eq-after (e ∷ f ∷ es) = next_password-eq-after (f ∷ es)

pub after-ge : (lo : ℕ) (es : List PwEntry) (mem : List ℕ) → Placed lo es mem → lo ≤ after lo es
after-ge lo [] mem p = omega arith
after-ge lo (e ∷ es) mem p = omega (arith, p.0, after-ge (e.password + e.len + 1) es mem p.4)

pub Placed-weaken :
    (lo lo' : ℕ) (es : List PwEntry) (mem : List ℕ)
    → lo' ≤ lo
    → Placed lo es mem
    → Placed lo' es mem
Placed-weaken lo lo' [] mem h p = tt
Placed-weaken lo lo' (e ∷ es) mem h p = (omega (arith, p.0), p.1, p.2, p.3, p.4)

-- Two blocks in which every password of the entries reads the same.
abbrev pub SameReads : List ℕ → List ℕ → List PwEntry → Type 0
SameReads mem mem' = All (λ e. read_string mem' e.password ≡ read_string mem e.password)

pub Placed-SameReads :
    (lo : ℕ) (es : List PwEntry) (mem mem' : List ℕ)
    → length mem' ≡ length mem
    → SameReads mem mem' es
    → Placed lo es mem
    → Placed lo es mem'
Placed-SameReads lo [] mem mem' l s p = tt
Placed-SameReads lo (e ∷ es) mem mem' l s p = (
  p.0,
  ap length s.0 ∙ p.1,
  omega (arith, p.2, l),
  p.3,
  Placed-SameReads (e.password + e.len + 1) es mem mem' l s.1 p.4,
)

-- The passwords by key.
abbrev pub read_at : List ℕ → Option PwEntry → Option (List ℕ)
read_at mem none = none
read_at mem (some e) = some (read_string mem e.password)

abbrev pub passwords : List PwEntry → List ℕ → Text → Option (List ℕ)
passwords es mem k = read_at mem (find_key k es)

pub passwords-SameReads :
    (es : List PwEntry) (mem mem' : List ℕ) (k : Text)
    → SameReads mem mem' es
    → passwords es mem' k ≡ passwords es mem k
unfolding find_key
passwords-SameReads [] mem mem' k s = refl
passwords-SameReads (e ∷ es) mem mem' k s = elim (Bool-cases (text_eq e.key k)) [
  | inl h ↦ rw h (ap some s.0)
  | inr h ↦ rw h (passwords-SameReads es mem mem' k s.1)
]

-- A key that is found nowhere is not the first entry's.
pub find_key-none :
    (k : Text) (e : PwEntry) (es : List PwEntry)
    → find_key k (e ∷ es) ≡ none
    → (text_eq e.key k ≡ false) × (find_key k es ≡ none)
unfolding find_key
find_key-none k e es h = elim (Bool-cases (text_eq e.key k)) [
  | inl t ↦ cc (rw (t, find_key) at h)
  | inr f ↦ (f, rw (f, find_key) at h)
]

pub find_key-append :
    (j : Text) (es : List PwEntry) (n : PwEntry)
    → find_key j es ≡ none
    → text_eq n.key j ≡ false
    → find_key j (es ++ n ∷ []) ≡ none
unfolding find_key
find_key-append j [] n h f = rw f refl
find_key-append j (e ∷ es) n h f =
    let (t, r) = find_key-none j e es h in rw t (find_key-append j es n r f)
