-- ===== src/Tests/Passwords.antt =====
-- Runs of the password store.
use gparted_android.Prelude.{
  take, drop, ℕ, ◌≡◌, refl, List, [], ◌∷◌, ◌++◌, Bool, true, some, none, length, replicate,
  length-replicate, arith,
}
use gparted_android.Prelude.Text.{codes, text_eq}
use gparted_android.PasswordStore.{
  store, lookup, PwEntry, PwStore, protected_mem_size, find_key, append_entry, insert, erase,
}
use gparted_android.PasswordStore.Memory.{bytes_eq, read_string, write, IsString}
use gparted_android.PasswordStore.Valid.{IsValid}
use gparted_android.PasswordStore.Refine.{Stored, insert-Stored}
use gparted_android.PasswordStore.Erase.{Erased, erase-Erased}
use gparted_android.PasswordStore.Wipe.{erase_wipes}
use gparted_android.PasswordStore.Store.{store-Stored}
use gparted_android.PasswordStore.Limits.{insert_overruns, insert_total}

abbrev secret : List ℕ
secret = codes "pw"

abbrev secret_b : List ℕ
secret_b = codes "swordfish"

abbrev blank : List ℕ
blank = replicate protected_mem_size 0

abbrev empty : PwStore
empty = record { pw_entries = []; protected_mem = some blank }

abbrev one : PwStore
one = record {
  pw_entries = record { key = codes "a"; password = 0; len = length secret } ∷ [];
  protected_mem = some (write 0 (secret ++ 0 ∷ []) blank);
}

empty-IsValid : IsValid empty
empty-IsValid = (length-replicate {A = ℕ} protected_mem_size 0, tt)

insert-one : insert (codes "a") secret empty ≡ some (one, true)
unfolding insert find_key append_entry
insert-one = refl

secret_b-IsString : IsString secret_b
secret_b-IsString = (
  λ e. cc,
  (λ e. cc, (λ e. cc, (λ e. cc, (λ e. cc, (λ e. cc, (λ e. cc, (λ e. cc, (λ e. cc, tt)))))))),
)

secret-IsString : IsString secret
secret-IsString = (λ e. cc, (λ e. cc, tt))

insert-Stored_example : Stored (codes "a") secret empty one
insert-Stored_example =
    insert-Stored (codes "a") secret empty one secret-IsString empty-IsValid insert-one

erase-Erased_example : Erased (codes "a") one (erase (codes "a") one).0
erase-Erased_example =
    erase-Erased (codes "a") one
      (insert-Stored (codes "a") secret empty one secret-IsString empty-IsValid insert-one).0

insert_total_example : (r : PwStore × Bool) × (insert (codes "a") secret empty ≡ some r)
insert_total_example = insert_total (codes "a") secret empty (omega arith)

-- A password of 3000 bytes leaves room for 1094 bytes more.
abbrev long : List PwEntry
long = record { key = codes "a"; password = 0; len = 3000 } ∷ []

abbrev filled : List ℕ
filled = write 0 (replicate 3000 97 ++ 0 ∷ []) blank

insert_overruns_example :
    insert
      (codes "b")
      (replicate 2000 98)
      (record { pw_entries = long; protected_mem = some filled })
    ≡ none
unfolding find_key text_eq
insert_overruns_example =
    insert_overruns (codes "b") (replicate 2000 98) long filled
      (record { key = codes "a"; password = 0; len = 3000 }) refl refl (omega arith) (omega arith)

erase_wipes_example :
    (mem' : List ℕ) × ((erase (codes "a") one).0.protected_mem ≡ some mem')
    × (take 2 (drop 0 mem') ≡ replicate 2 0)
unfolding find_key text_eq
erase_wipes_example =
    erase_wipes (codes "a") (record { key = codes "a"; password = 0; len = length secret })
      one.pw_entries (write 0 (secret ++ 0 ∷ []) blank)
      (insert-Stored (codes "a") secret empty one secret-IsString empty-IsValid insert-one).0 refl

-- Storing another password for the key erases the first one.
abbrev replaced : PwStore
replaced = record {
  pw_entries = record { key = codes "a"; password = 0; len = length secret_b } ∷ [];
  protected_mem =
      some
        (write 0 (secret_b ++ 0 ∷ []) (write 0 (replicate 2 0) (write 0 (secret ++ 0 ∷ []) blank)));
}

store-replaced : store (codes "a") secret_b one ≡ some (replaced, true)
unfolding store lookup insert erase find_key append_entry text_eq bytes_eq read_string write
store-replaced = refl

store-Stored_example : Stored (codes "a") secret_b one replaced
store-Stored_example =
    store-Stored (codes "a") secret_b one replaced secret_b-IsString
      (insert-Stored (codes "a") secret empty one secret-IsString empty-IsValid insert-one).0
      store-replaced
