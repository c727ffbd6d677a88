-- ===== src/PasswordStore.antt =====
-- src/PasswordRAMStore.cc: passwords of encrypted partitions in one block of locked memory.
-- A pointer into the block is its offset. The block is missing where `mmap` failed. A write past the
-- end of the block is undefined behaviour: `none`. Passwords are C strings without their final NUL.
pub mod Memory
pub mod Valid
pub mod Refine
pub mod Erase
pub mod Wipe
pub mod Limits
pub mod Store
use gparted_android.Prelude.{
  ℕ, zero, suc, ◌+◌, ◌-◌, if◌then◌else◌, Bool, true, false, Option, none, some, List, [], ◌∷◌, ◌++◌,
  leb, ltb, ◌==◌, length, last?, replicate,
}
use gparted_android.Prelude.Text.{Text, text_eq}
use Memory.{write, read_string, bytes_eq}

pub record PwEntry : Type 0 where
  pub key : Text
  pub password : ℕ
  pub len : ℕ

pub record PwStore : Type 0 where
  pub pw_entries : List PwEntry
  pub protected_mem : Option (List ℕ)

abbrev pub protected_mem_size : ℕ
protected_mem_size = 4096

-- `PWStore::PWStore`, given whether `mmap` succeeds: its memory is zero.
unfoldable pub new_store : Bool → PwStore
new_store mapped = record {
  pw_entries = [];
  protected_mem = if mapped then some (replicate protected_mem_size 0) else none;
}

unfoldable pub find_key : Text → List PwEntry → Option PwEntry
find_key k [] = none
find_key k (e ∷ es) = if text_eq e.key k then some e else find_key k es

abbrev pub remove_key : Text → List PwEntry → List PwEntry
remove_key k [] = []
remove_key k (e ∷ es) = if text_eq e.key k then es else e ∷ remove_key k es

-- Where the next password goes, and the room that `insert` computes for it.
abbrev pub next_password : List PwEntry → ℕ
next_password es = elim (last? es) [ none ↦ 0 | some e ↦ e.password + e.len + 1 ]

abbrev pub available_len : List PwEntry → ℕ
available_len es = elim (last? es) [
  | none ↦ protected_mem_size - 1
  | some e ↦ e.password + e.len + 1 - 1
]

-- The entry is added, and the password copied with its NUL.
unfoldable pub append_entry : Text → List ℕ → List PwEntry → List ℕ → Option (PwStore × Bool)
append_entry k pw es mem =
    let at = next_password es in
    if leb protected_mem_size (at + length pw)
    then none
    else some (
      record {
        pw_entries = es ++ record { key = k; password = at; len = length pw } ∷ [];
        protected_mem = some (write at (pw ++ 0 ∷ []) mem);
      },
      true,
    )

unfoldable pub insert : Text → List ℕ → PwStore → Option (PwStore × Bool)
unfolding append_entry find_key
insert k pw s = elim s.protected_mem [
  | none ↦ some (s, false)
  | some mem ↦ elim (find_key k s.pw_entries) [
    | some e ↦ some (s, false)
    | none ↦
        if leb (length pw) (available_len s.pw_entries)
        then append_entry k pw s.pw_entries mem
        else some (s, false)
  ]
]

-- The bytes of the password become zero, and its entry goes.
unfoldable pub erase : Text → PwStore → PwStore × Bool
unfolding find_key
erase k s = elim (find_key k s.pw_entries) [
  | none ↦ (s, false)
  | some e ↦ (
    record {
      pw_entries = remove_key k s.pw_entries;
      protected_mem = elim s.protected_mem [
        | none ↦ none
        | some mem ↦ some (write e.password (replicate e.len 0) mem)
      ];
    },
    true,
  )
]

-- The pointer returned; a null pointer is `none`.
unfoldable pub lookup : Text → PwStore → Option ℕ
unfolding find_key
lookup k s = elim (find_key k s.pw_entries) [ none ↦ none | some e ↦ some e.password ]

unfoldable pub erase_all : PwStore → PwStore
erase_all s = record {
  pw_entries = [];
  protected_mem = elim s.protected_mem [
    | none ↦ none
    | some mem ↦ some (write 0 (replicate protected_mem_size 0) mem)
  ];
}

-- The C string at a pointer into the block.
abbrev pub string_at : PwStore → ℕ → List ℕ
string_at s at = elim s.protected_mem [ none ↦ [] | some mem ↦ read_string mem at ]

-- `PasswordRAMStore::store`: `erase && insert` if another password is there.
unfoldable pub store : Text → List ℕ → PwStore → Option (PwStore × Bool)
unfolding lookup insert erase
store k pw s = elim (lookup k s) [
  | none ↦ insert k pw s
  | some at ↦
      if bytes_eq (string_at s at) pw
      then some (s, true)
      else let (s', erased) = erase k s in if erased then insert k pw s' else some (s', false)
]
