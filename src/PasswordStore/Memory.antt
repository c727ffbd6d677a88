-- ===== src/PasswordStore/Memory.antt =====
-- The block of memory that src/PasswordRAMStore.cc writes with `memcpy` and `memset` and reads as C
-- strings.
use gparted_android.Prelude.{
  ℕ, zero, suc, ◌+◌, ◌≤◌, ◌<◌, ◌≡◌, ◌≢◌, refl, ap, Bool, true, false, ◌&&◌, List, [], ◌∷◌, ◌++◌,
  ◌==◌, length, drop, arith, All,
}

-- Bytes written over the start of a block; what does not fit is not written.
abbrev pub overlay : List ℕ → List ℕ → List ℕ
overlay [] mem = mem
overlay (b ∷ bs) [] = []
overlay (b ∷ bs) (m ∷ mem) = b ∷ overlay bs mem

unfoldable pub write : ℕ → List ℕ → List ℕ → List ℕ
write zero bs mem = overlay bs mem
write (suc i) bs [] = []
write (suc i) bs (m ∷ mem) = m ∷ write i bs mem

-- Up to the first NUL.
abbrev pub c_string : List ℕ → List ℕ
c_string [] = []
c_string (zero ∷ mem) = []
c_string (suc c ∷ mem) = suc c ∷ c_string mem

unfoldable pub read_string : List ℕ → ℕ → List ℕ
read_string mem i = c_string (drop i mem)

-- `strcmp` is zero.
unfoldable pub bytes_eq : List ℕ → List ℕ → Bool
bytes_eq [] [] = true
bytes_eq (a ∷ s) (b ∷ t) = (a == b) && bytes_eq s t
bytes_eq _ _ = false

-- The bytes of a C string are not NUL.
abbrev pub IsString : List ℕ → Type 0
IsString = All (λ c. c ≢ 0)

length-overlay : (bs mem : List ℕ) → length (overlay bs mem) ≡ length mem
length-overlay [] mem = refl
length-overlay (b ∷ bs) [] = refl
length-overlay (b ∷ bs) (m ∷ mem) = ap suc (length-overlay bs mem)

pub length-write : (i : ℕ) (bs mem : List ℕ) → length (write i bs mem) ≡ length mem
unfolding write
length-write zero bs mem = length-overlay bs mem
length-write (suc i) bs [] = refl
length-write (suc i) bs (m ∷ mem) = ap suc (length-write i bs mem)

c_string-overlay :
    (pw mem : List ℕ)
    → IsString pw
    → length pw < length mem
    → c_string (overlay (pw ++ 0 ∷ []) mem) ≡ pw
c_string-overlay [] [] h k = elim k [ ]
c_string-overlay [] (m ∷ mem) h k = refl
c_string-overlay (zero ∷ pw) mem h k = absurd (h.0 refl)
c_string-overlay (suc c ∷ pw) [] h k = elim k [ ]
c_string-overlay (suc c ∷ pw) (m ∷ mem) h k =
    ap (◌∷◌ (suc c)) (c_string-overlay pw mem h.1 (omega arith))

-- What is written as a C string is read back.
pub read_string-write_self :
    (i : ℕ) (pw mem : List ℕ)
    → IsString pw
    → i + length pw < length mem
    → read_string (write i (pw ++ 0 ∷ []) mem) i ≡ pw
unfolding read_string write
read_string-write_self zero pw mem h k = c_string-overlay pw mem h (omega arith)
read_string-write_self (suc i) pw [] h k = elim k [ ]
read_string-write_self (suc i) pw (m ∷ mem) h k = read_string-write_self i pw mem h (omega arith)

-- A write behind the end of a string leaves it.
c_string-write_after :
    (i : ℕ) (bs mem : List ℕ) → length (c_string mem) < i → c_string (write i bs mem) ≡ c_string mem
unfolding write
c_string-write_after zero bs mem h = elim h [ ]
c_string-write_after (suc i) bs [] h = refl
c_string-write_after (suc i) bs (zero ∷ mem) h = refl
c_string-write_after (suc i) bs (suc c ∷ mem) h =
    ap (◌∷◌ (suc c)) (c_string-write_after i bs mem (omega arith))

pub read_string-write_after :
    (j i : ℕ) (bs mem : List ℕ)
    → j + length (read_string mem j) < i
    → read_string (write i bs mem) j ≡ read_string mem j
unfolding read_string write
read_string-write_after zero i bs mem h = c_string-write_after i bs mem (omega arith)
read_string-write_after (suc j) zero bs mem h = absurd (omega arith)
read_string-write_after (suc j) (suc i) bs [] h = refl
read_string-write_after (suc j) (suc i) bs (m ∷ mem) h =
    read_string-write_after j i bs mem (omega arith)

drop-overlay : (j : ℕ) (bs mem : List ℕ) → length bs ≤ j → drop j (overlay bs mem) ≡ drop j mem
drop-overlay j [] mem h = refl
drop-overlay zero (b ∷ bs) mem h = absurd (omega arith)
drop-overlay (suc j) (b ∷ bs) [] h = refl
drop-overlay (suc j) (b ∷ bs) (m ∷ mem) h = drop-overlay j bs mem (omega arith)

-- So does a write in front of it.
pub read_string-write_before :
    (j i : ℕ) (bs mem : List ℕ)
    → i + length bs ≤ j
    → read_string (write i bs mem) j ≡ read_string mem j
unfolding read_string write
read_string-write_before j zero bs mem h = ap c_string (drop-overlay j bs mem (omega arith))
read_string-write_before zero (suc i) bs mem h = absurd (omega arith)
read_string-write_before (suc j) (suc i) bs [] h = refl
read_string-write_before (suc j) (suc i) bs (m ∷ mem) h =
    read_string-write_before j i bs mem (omega arith)

pub bytes_eq→eq : (s t : List ℕ) → bytes_eq s t ≡ true → s ≡ t
unfolding bytes_eq
bytes_eq→eq [] [] h = refl
bytes_eq→eq [] (b ∷ t) h = ground arith
bytes_eq→eq (a ∷ s) [] h = ground arith
bytes_eq→eq (a ∷ s) (b ∷ t) h = ground (arith, bytes_eq→eq s t)
