-- ===== src/PasswordStore/Store.antt =====
-- `PasswordRAMStore::store` (src/PasswordRAMStore.cc) updates the map from keys to passwords.
use mathlib.Core.Path.{subst}
use gparted_android.Prelude.{
  ℕ, ◌≡◌, refl, ap, ◌∙◌, Bool, true, Option, none, some, List, Bool-cases, Option-cases, inl, inr,
}
use gparted_android.Prelude.Text.{Text, text_eq, text_eq→eq}
use gparted_android.PasswordStore.{PwStore, lookup, erase, string_at, store}
use gparted_android.PasswordStore.Memory.{IsString, bytes_eq, bytes_eq→eq}
use gparted_android.PasswordStore.Valid.{IsValid}
use gparted_android.PasswordStore.Refine.{contents, Stored, insert-Stored}
use gparted_android.PasswordStore.Erase.{Erased, erase-Erased}

abbrev result : PwStore → Bool → Option (PwStore × Bool)
result s b = some (s, b)

store_of : (s s' : PwStore) (a b : Bool) → result s a ≡ result s' b → s ≡ s'
store_of s s' a b h = ap (λ (o : Option (PwStore × Bool)). elim o [ none ↦ s | some r ↦ r.0 ]) h

module _ (k : Text) (pw : List ℕ) where
  Stored-already :
      (s : PwStore) (at : ℕ)
      → IsValid s
      → lookup k s ≡ some at
      → string_at s at ≡ pw
      → Stored k pw s s
  unfolding contents
  Stored-already s at v l e = (
    v,
    λ j. elim (Bool-cases (text_eq k j)) [
      | inl t ↦ rw (t, ← text_eq→eq k j t, l, e) refl
      | inr t ↦ rw t refl
    ],
  )

  Erased-then-Stored : (s s1 s' : PwStore) → Erased k s s1 → Stored k pw s1 s' → Stored k pw s s'
  Erased-then-Stored s s1 s' (v1, e) (v, c) = (
    v,
    λ j. elim (Bool-cases (text_eq k j)) [
      | inl t ↦ rw t (rw t at (c j))
      | inr t ↦ rw t ((rw t at (c j)) ∙ (rw t at (e j)))
    ],
  )

  -- A password that `store` reports as stored is found under its key, also where it takes the place of
  -- another one; every other key keeps its password, and the store stays valid.
  pub store-Stored :
      (s s' : PwStore) → IsString pw → IsValid s → store k pw s ≡ some (s', true) → Stored k pw s s'
  unfolding store
  store-Stored s s' str v h = elim (Option-cases (lookup k s)) [
    | inl l ↦ insert-Stored k pw s s' str v (rw (l, store) at h)
    | inr (at, l) ↦ elim (Bool-cases (bytes_eq (string_at s at) pw)) [
      | inl b ↦
          subst (Stored k pw s) (store_of s s' true true (rw (l, store, b) at h))
            (Stored-already s at v l (bytes_eq→eq _ pw b))
      | inr b ↦ elim (Bool-cases (erase k s).1) [
        | inl e ↦ Erased-then-Stored s (erase k s).0 s' (erase-Erased k s v) (
            insert-Stored k pw (erase k s).0 s' str (erase-Erased k s v).0
              (rw (l, store, b, e) at h))
        | inr e ↦ cc (rw (l, store, b, e) at h)
      ]
    ]
  ]
