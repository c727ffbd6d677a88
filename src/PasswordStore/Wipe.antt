-- ===== src/PasswordStore/Wipe.antt =====
-- `PWStore::erase` (src/PasswordRAMStore.cc) leaves nothing of the password in the block.
use mathlib.Core.Path.{subst}
use gparted_android.Prelude.{
  ℕ, zero, suc, ◌+◌, ◌≡◌, ◌<◌, ◌≤◌, refl, ap, Option, none, some, List, [], ◌∷◌, length, take, drop,
  replicate, length-replicate, Bool-cases, inl, inr, arith,
}
use gparted_android.Prelude.Text.{Text, text_eq}
use gparted_android.PasswordStore.{PwEntry, find_key, erase}
use gparted_android.PasswordStore.Memory.{overlay, write}
use gparted_android.PasswordStore.Valid.{Placed, IsValid}

take-overlay : (bs mem : List ℕ) → length bs ≤ length mem → take (length bs) (overlay bs mem) ≡ bs
take-overlay [] mem h = refl
take-overlay (b ∷ bs) [] h = absurd (omega (arith, h))
take-overlay (b ∷ bs) (m ∷ mem) h = ap (◌∷◌ b) (take-overlay bs mem (omega (arith, h)))

take-write :
    (i : ℕ) (bs mem : List ℕ)
    → i + length bs ≤ length mem
    → take (length bs) (drop i (write i bs mem)) ≡ bs
unfolding write
take-write zero bs mem h = take-overlay bs mem (omega (arith, h))
take-write (suc i) bs [] h = absurd (omega (arith, h))
take-write (suc i) bs (m ∷ mem) h = take-write i bs mem (omega (arith, h))

find_key-Placed :
    (lo : ℕ) (k : Text) (e : PwEntry) (es : List PwEntry) (mem : List ℕ)
    → Placed lo es mem
    → find_key k es ≡ some e
    → e.password + e.len < length mem
unfolding find_key
find_key-Placed lo k e [] mem p f = cc
find_key-Placed lo k e (e' ∷ es) mem p f = elim (Bool-cases (text_eq e'.key k)) [
  | inl t ↦
      subst (λ (x : PwEntry). x.password + x.len < length mem)
        (ap (λ (o : Option PwEntry). elim o [ none ↦ e' | some x ↦ x ]) (rw (t, find_key) at f)) p.2
  | inr t ↦ find_key-Placed (e'.password + e'.len + 1) k e es mem p.4 (rw (t, find_key) at f)
]

-- After a password of a valid store is erased, the bytes of the block where it stood are all zero.
pub erase_wipes :
    (k : Text) (e : PwEntry) (es : List PwEntry) (mem : List ℕ)
    → IsValid (record { pw_entries = es; protected_mem = some mem })
    → find_key k es ≡ some e
    → (mem' : List ℕ) × ((erase k
          (record { pw_entries = es; protected_mem = some mem })).0.protected_mem
        ≡ some mem')
      × (take e.len (drop e.password mem') ≡ replicate e.len 0)
unfolding erase
erase_wipes k e es mem v f = (
  write e.password (replicate e.len 0) mem,
  rw (f, erase) refl,
  rw (length-replicate {A = ℕ} e.len 0) at (
      take-write e.password (replicate e.len 0) mem (
        rw (length-replicate {A = ℕ} e.len 0) (omega (arith, find_key-Placed 0 k e es mem v.1 f)))),
)
