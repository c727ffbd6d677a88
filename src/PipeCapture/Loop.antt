-- ===== src/PipeCapture/Loop.antt =====
-- The loop of `OnReadable` ends, and the caller's buffer holds the capture at the end
-- (src/PipeCapture.cc).
use gparted_android.Prelude.{
  ℕ, zero, suc, ◌≡◌, ◌≤◌, ◌⊎◌, refl, ap, true, false, ◌&&◌, Bool, Option, some, List, [], ◌∷◌, ◌++◌,
  length, ◌==◌, Bool-cases, Option-cases, inl, inr, arith,
}
use gparted_android.PipeCapture.{
  Lines, PipeCapture, Status, normal, eof, failed, Validated, char, partial, invalid,
  line_discipline, next_ptr, read_bytes, on_readable, after_read, finish,
}

-- `g_utf8_find_next_char` goes on by a byte at least, but may stay on a NUL byte.
abbrev pub Advances : (List ℕ → Option (List ℕ)) → Type 0
Advances next =
    (b : ℕ) (bs r : List ℕ)
    → next (b ∷ bs) ≡ some r
    → (length r ≤ length bs) ⊎ ((r ≡ b ∷ bs) × (b ≡ 0))

-- The caller's buffer counts as out of date, or it is the capture.
abbrev pub Fresh : PipeCapture → Type 0
Fresh p = (p.callerbuf_uptodate ≡ false) ⊎ (p.callerbuf ≡ p.lines.capturebuf)

-- Where the source of events stays, that; where it goes, the buffer is the capture.
abbrev pub Delivers : PipeCapture × Bool → Type 0
Delivers (q, true) = Fresh q
Delivers (q, false) = q.callerbuf ≡ q.lines.capturebuf

module _ (encode : ℕ → List ℕ) (validated : List ℕ → Validated)
    (next : List ℕ → Option (List ℕ)) where
  length-next_ptr :
      (b : ℕ) (bs : List ℕ)
      → Advances next
      → length (next_ptr encode validated next b bs) ≤ length bs
  length-next_ptr b bs h = elim (Option-cases (next (b ∷ bs))) [
    | inl e ↦ rw (e, next_ptr) (omega arith)
    | inr (r, e) ↦
        rw (e, next_ptr)
          (elim (Bool-cases (length r == length (b ∷ bs) && b == 0)) [
            | inl t ↦ rw t (omega arith)
            | inr f ↦ rw f (elim (h b bs r e) [
              | inl k ↦ k
              | inr (k, z) ↦ absurd (ground (arith, ap length k))
            ])
          ])
  ]

  abbrev Ends : ℕ → List ℕ → Lines → Type 0
  Ends fuel bs s = (r : Lines × List ℕ) × (read_bytes encode validated next fuel bs s ≡ some r)

  step-Ends :
      (fuel b : ℕ) (bs : List ℕ) (s : Lines) (v : Validated)
      → Advances next
      → length bs ≤ fuel
      → ((bs' : List ℕ) (s' : Lines) → length bs' ≤ fuel → Ends fuel bs' s')
      → (r : Lines × List ℕ) × (elim v [
        | partial ↦ some (s, b ∷ bs)
        | invalid ↦ read_bytes encode validated next fuel bs s
        | char c ↦
            read_bytes encode validated next fuel
              (next_ptr encode validated next b bs)
              (line_discipline encode c s)
      ]
          ≡ some r)
  step-Ends fuel b bs s partial h k again = ((s, b ∷ bs), refl)
  step-Ends fuel b bs s invalid h k again = again bs s k
  step-Ends fuel b bs s (char c) h k again = again _ _ (omega (arith, k, length-next_ptr b bs h))

  -- The loop on a read ends after at most as many rounds as there are bytes.
  pub read_bytes_total :
      (fuel : ℕ) (bs : List ℕ) (s : Lines) → Advances next → length bs ≤ fuel → Ends fuel bs s
  unfolding read_bytes
  read_bytes_total fuel [] s h k = ((s, []), refl)
  read_bytes_total zero (b ∷ bs) s h k = absurd (omega (arith, k))
  read_bytes_total (suc fuel) (b ∷ bs) s h k =
      step-Ends fuel b bs s _ h (omega (arith, k)) (λ bs' s'. read_bytes_total fuel bs' s' h)

  finish_lem : (p : PipeCapture) → Fresh p → (finish p).callerbuf ≡ (finish p).lines.capturebuf
  unfolding finish
  finish_lem p f = elim (Bool-cases p.callerbuf_uptodate) [
    | inl h ↦ rw h (elim f [ inl g ↦ cc | inr e ↦ e ])
    | inr h ↦ rw h refl
  ]

  after_read-Fresh :
      (u : Bool) (p : PipeCapture) (r : Lines × List ℕ)
      → Fresh (after_read encode validated next u p r)
  after_read-Fresh true p (s, kept) = inr refl
  after_read-Fresh false p (s, kept) = inl refl

  -- Every call of `OnReadable` comes to an end. Where it goes on, the caller's buffer is the capture
  -- or counts as out of date; where it stops, the caller's buffer is the capture.
  pub on_readable-Delivers :
      (has_update : Bool) (status : Status) (p : PipeCapture)
      → Advances next
      → Fresh p
      → (r : PipeCapture × Bool) × (on_readable encode validated next has_update status p ≡ some r)
        × Delivers r
  unfolding on_readable
  on_readable-Delivers u eof p h f = (_, refl, finish_lem p f)
  on_readable-Delivers u failed p h f = (_, refl, finish_lem p f)
  on_readable-Delivers u (normal bytes) p h f =
      let (r, e) =
        read_bytes_total (length (p.kept ++ bytes)) (p.kept ++ bytes) p.lines h (omega arith) in
      (
        (after_read encode validated next u p r, true),
        rw (e, on_readable) refl,
        after_read-Fresh u p r,
      )
