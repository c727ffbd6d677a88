-- ===== src/CopyBlocks/Overlap.antt =====
-- A copy of a range of sectors to a place that may overlap it (src/CopyBlocks.cc).
use gparted_android.Prelude.{
  ℕ, ◌+◌, ◌-◌, ◌*◌, ◌≤◌, ◌<◌, ◌≡◌, inl, inr, refl, sym, ◌∙◌, ap, subst, Bool, true, false, some,
  by_test, if◌then◌else◌, arith,
}
use gparted_android.Prelude.Int.{
  ℤ, pos, ◌+ℤ◌, ◌≤ℤ◌, llabs, eq_ℤ, eq_ℤ→eq, parts_of_eq, eq_of_parts, int_laws,
}
use gparted_android.Prelude.Text.{Text}
use gparted_android.CopyBlocks.{
  Ped, IsLawful, Job, User, Message, operation_canceled, Copying, received, transfer, try_block,
  written, copy_block, run_block, count_block, move_forward, before_block,
}
use gparted_android.CopyBlocks.Steps.{signed, signed_parts, llabs-signed}
use gparted_android.CopyBlocks.Loop.{Keeps, Reached, try_block-Same}
use gparted_android.CopyBlocks.Moves.{Copied, Copied-add}
use gparted_android.CopyBlocks.Blocks.{
  shift, before_by, after_by, move_backward-shift, move_forward-shift, num_blocks-src,
  num_blocks-dst, no_product,
}
use native.Mathlib.Nat.{add-mul, le_of_mul-le-mul_right}

-- The first sector of the next block, after `j` sectors, and the bounds of what was copied.
abbrev pub edge : Bool → ℕ → ℕ → ℕ → ℕ
edge back lo hi j = if back then lo - j else hi + j

abbrev pub low : Bool → ℕ → ℕ → ℕ
low back lo j = if back then lo - j else lo

abbrev pub high : Bool → ℕ → ℕ → ℕ
high back hi j = if back then hi else hi + j

-- The copy goes away from what it would write over: from the end on where the data goes towards it.
abbrev pub Away : Bool → ℤ → ℤ → ℕ → ℕ → Type 0
Away true s d lo n = (s ≤ℤ d) × (n ≤ lo)
Away false s d lo n = d ≤ℤ s

abbrev pub Any : Message → Type 0
Any m = Unit {0}

module _ (ped : Ped) (src dst : Text) (c lo hi : ℕ) (back : Bool) (s d : ℤ)
    (start : ped.World) where
  -- After some bytes: so many sectors have been copied, and the offsets stand at the next.
  pub record Progress (bytes : ℕ) (w : ped.World) (cancel : Bool) (o o' : ℤ) : Type 0 where
    pub sectors : ℕ
    pub size : bytes ≡ sectors * c
    pub src_at : o ≡ s +ℤ pos (edge back lo hi sectors)
    pub dst_at : o' ≡ d +ℤ pos (edge back lo hi sectors)
    pub copied : Copied ped src dst s d start w (low back lo sectors) (high back hi sectors)

-- Where a block of `k` sectors begins, and where the offset is after it.
block_at : Bool → ℕ → ℕ → ℕ → ℕ → ℕ
block_at back lo hi j k = if back then lo - (j + k) else hi + j

begins_at :
    (back : Bool) (lo hi j k n : ℕ) (o s : ℤ)
    → (back ≡ true → n ≤ lo)
    → j + k ≤ n
    → o ≡ s +ℤ pos (edge back lo hi j)
    → o +ℤ before_by back k ≡ s +ℤ pos (block_at back lo hi j k)
unfolding block_at
begins_at true lo hi j k n o s le h e =
    eq_of_parts _ _ (omega (int_laws, parts_of_eq e, le refl, h, signed_parts true k))
begins_at false lo hi j k n o s le h e = eq_of_parts _ _ (omega (int_laws, parts_of_eq e))

ends_at :
    (back : Bool) (lo hi j k n : ℕ) (o s : ℤ)
    → (back ≡ true → n ≤ lo)
    → j + k ≤ n
    → o ≡ s +ℤ pos (edge back lo hi j)
    → o +ℤ before_by back k +ℤ after_by back k ≡ s +ℤ pos (edge back lo hi (j + k))
ends_at true lo hi j k n o s le h e =
    eq_of_parts _ _ (omega (int_laws, parts_of_eq e, le refl, h, signed_parts true k))
ends_at false lo hi j k n o s le h e =
    eq_of_parts _ _ (omega (int_laws, parts_of_eq e, signed_parts false k))

Away-fits : (back : Bool) (s d : ℤ) (lo n : ℕ) → Away back s d lo n → back ≡ true → n ≤ lo
Away-fits true s d lo n a e = a.1
Away-fits false s d lo n a e = absurd (ground (arith, e))

module _ (ped : Ped) (lawful : IsLawful ped) (src dst : Text) (s d : ℤ) (start w : ped.World)
    (lo hi j k n : ℕ) (fits : lo ≤ hi) (room : j + k ≤ n) (b : ped.Buffer) where
  -- A block adds its sectors to what was copied.
  block-Copied :
      (back : Bool)
      → Away back s d lo n
      → Copied ped src dst s d start w (low back lo j) (high back hi j)
      → ped.read w src (s +ℤ pos (block_at back lo hi j k)) (pos k) ≡ some b
      → (ped.write w dst b (d +ℤ pos (block_at back lo hi j k)) (pos k)).0 ≡ true
      → Copied ped src dst s d start
          (ped.write w dst b (d +ℤ pos (block_at back lo hi j k)) (pos k)).1
          (low back lo (j + k))
          (high back hi (j + k))
  unfolding block_at
  block-Copied true (a, le) c r e =
      Copied-add ped lawful src dst s d start w (lo - j) hi (lo - (j + k)) k b c
        (λ i h h'. inr (inl (omega (int_laws, a, le, room, h, h')))) r e (lo - (j + k)) hi
        (omega arith) (omega arith) (omega arith) (omega (arith, le, room, fits))
        λ i h h' o. elim o [
          | inl x ↦ absurd (omega (arith, x, h))
          | inr x ↦ (omega (arith, x, le, room), h')
        ]
  block-Copied false a c r e =
      Copied-add ped lawful src dst s d start w lo (hi + j) (hi + j) k b c
        (λ i h h'. inr (inr (omega (int_laws, a, h, h')))) r e lo (hi + (j + k)) (omega arith)
        (omega arith) (omega (arith, fits)) (omega arith)
        λ i h h' o. elim o [ inl x ↦ (h, x) | inr x ↦ absurd (omega (arith, x, h')) ]

module _ (ped : Ped) (lawful : IsLawful ped) (user : User) (job : Job) (c lo hi n : ℕ)
    (src_size : ped.sector_size job.src_device ≡ pos c)
    (dst_size : ped.sector_size job.dst_device ≡ pos c) (positive : 0 < c)
    (readable : (w : ped.World) (o count : ℤ)
      → (b : ped.Buffer) × (ped.read w job.src_device o count ≡ some b))
    (s d : ℤ) (start : ped.World) (fits : lo ≤ hi) (b : ℕ) (back : Bool)
    (away : Away back s d lo n) where
  abbrev Goes : ℕ → ped.World → Bool → ℤ → ℤ → Type 0
  Goes = Progress ped job.src_device job.dst_device c lo hi back s d start

  abbrev Stage : ℕ → Copying (ped.World) → Type 0
  Stage = Reached ped user job back (n * c) b Any Goes

  counted : (e : ℕ) (u : Copying (ped.World)) → Stage e u → Stage e (count_block ped u)
  unfolding count_block
  counted e u h =
      by_test (Stage e) u.success (record u { done = u.done +ℤ u.blocksize }) u (λ x. h) λ x. h

  module _ (k e : ℕ) (t : Copying (ped.World)) (size : t.blocksize ≡ signed back (k * c))
      (room : e + k * c ≤ n * c) (g : t.success ≡ true)
      (p : Goes e t.world t.cancel t.offset_src t.offset_dst) where
    abbrev at_block : Copying (ped.World)
    at_block = shift ped job (before_by back k) t

    sectors_room : p.sectors + k ≤ n
    sectors_room =
        le_of_mul-le-mul_right (omega (arith, room, p.size, add-mul p.sectors k c)) positive

    -- The state after a block whose sectors are copied.
    moved_on :
        (w : ped.World)
        → Copied ped job.src_device job.dst_device s d start w
            (low back lo (p.sectors + k))
            (high back hi (p.sectors + k))
        → Goes
            (e + k * c)
            w
            t.cancel
            (at_block.offset_src +ℤ after_by back k)
            (at_block.offset_dst +ℤ after_by back k)
    moved_on w copied = record {
      sectors = p.sectors + k;
      size = omega (arith, p.size, add-mul p.sectors k c);
      src_at =
          ends_at back lo hi p.sectors k n t.offset_src s (Away-fits back s d lo n away)
            sectors_room p.src_at;
      dst_at =
          ends_at back lo hi p.sectors k n t.offset_dst d (Away-fits back s d lo n away)
            sectors_room p.dst_at;
      copied = copied;
    }

    -- Nothing is to be copied where the block is empty.
    empty-Stage : k ≡ 0 → Stage (e + k * c) (shift ped job (after_by back k) at_block)
    empty-Stage z =
        let same : p.sectors ≡ p.sectors + k = omega (arith, z) in
        inr (
          g,
          moved_on t.world (
              subst
                (λ (j : ℕ).
                  Copied ped job.src_device job.dst_device s d start t.world (low back lo j)
                    (high back hi j))
                same p.copied),
        )

    outcome-Stage :
        (out : Bool × ped.World)
        → (out.0 ≡ true
            → Copied ped job.src_device job.dst_device s d start out.1
                (low back lo (p.sectors + k))
                (high back hi (p.sectors + k)))
        → Stage (e + k * c) (shift ped job (after_by back k) (written ped at_block out))
    outcome-Stage (true, w) h = inr (refl, moved_on w (h refl))
    outcome-Stage (false, w) h = inl (refl, tt)

    written-Stage :
        (buf : ped.Buffer)
        → ped.read t.world job.src_device at_block.offset_src (pos k) ≡ some buf
        → Stage (e + k * c) (
            shift ped job (after_by back k) (
              written ped at_block
                (ped.write t.world job.dst_device buf at_block.offset_dst (pos k))))
    written-Stage buf r =
        let from : at_block.offset_src ≡ s +ℤ pos (block_at back lo hi p.sectors k) =
          begins_at back lo hi p.sectors k n t.offset_src s (Away-fits back s d lo n away)
            sectors_room p.src_at in
        let to : at_block.offset_dst ≡ d +ℤ pos (block_at back lo hi p.sectors k) =
          begins_at back lo hi p.sectors k n t.offset_dst d (Away-fits back s d lo n away)
            sectors_room p.dst_at in
        outcome-Stage (ped.write t.world job.dst_device buf at_block.offset_dst (pos k)) (
          subst
            (λ (o : ℤ).
              (ped.write t.world job.dst_device buf o (pos k)).0 ≡ true
              → Copied ped job.src_device job.dst_device s d start
                  (ped.write t.world job.dst_device buf o (pos k)).1 (low back lo (p.sectors + k))
                  (high back hi (p.sectors + k)))
            (sym to)
            (block-Copied ped lawful job.src_device job.dst_device s d start t.world lo hi p.sectors
              k n fits sectors_room buf back away p.copied
              (ap (λ (o : ℤ). ped.read t.world job.src_device o (pos k)) (sym from) ∙ r)))

    no_bytes : eq_ℤ t.blocksize (pos 0) ≡ true → k * c ≡ 0
    no_bytes x =
        omega (
          arith,
          ap llabs size,
          ap llabs (eq_ℤ→eq t.blocksize (pos 0) x),
          llabs-signed back (k * c),
        )

    transfer-Stage : Stage (e + k * c) (shift ped job (after_by back k) (transfer ped job at_block))
    unfolding transfer
    transfer-Stage =
        let (buf, r) = readable t.world at_block.offset_src (pos k) in
        subst (λ (u : Copying (ped.World)). Stage (e + k * c) (shift ped job (after_by back k) u))
          (sym (
            ap
              (λ (m : ℤ).
                received ped job at_block (ped.read t.world job.src_device at_block.offset_src m))
              (num_blocks-src ped job c src_size dst_size positive t.blocksize back k size)
            ∙ ap (received ped job at_block) r
            ∙ ap
                (λ (m : ℤ).
                  written ped at_block (ped.write t.world job.dst_device buf at_block.offset_dst m))
                (num_blocks-dst ped job c src_size dst_size positive t.blocksize back k size)))
          (written-Stage buf r)

    tried-Stage : Stage (e + k * c) (shift ped job (after_by back k) (try_block ped job at_block))
    unfolding try_block
    tried-Stage =
        by_test (λ (u : Copying (ped.World)). Stage (e + k * c) (shift ped job (after_by back k) u))
          (eq_ℤ t.blocksize (pos 0)) at_block (transfer ped job at_block)
          (λ x. empty-Stage (no_product k c positive (no_bytes x))) λ x. transfer-Stage

    ran-Stage : Stage (e + k * c) (run_block ped job at_block)
    unfolding run_block
    ran-Stage =
        by_test (Stage (e + k * c)) t.cancel
          (record at_block { error_message = operation_canceled; success = false })
          (count_block ped (move_forward ped job (try_block ped job at_block)))
          (λ x. inl (refl, tt))
          λ x. counted (e + k * c) (move_forward ped job (try_block ped job at_block)) (
            subst (Stage (e + k * c))
              (sym (
                move_forward-shift ped job c src_size dst_size positive (try_block ped job at_block)
                  back k ((try_block-Same ped user job at_block).0 ∙ size)))
              tried-Stage)

    block-Stage : Stage (e + k * c) (copy_block ped job t)
    unfolding copy_block
    block-Stage =
        subst (λ (u : Copying (ped.World)). Stage (e + k * c) (run_block ped job u))
          (sym (move_backward-shift ped job c src_size dst_size positive t back k size)) ran-Stage

  -- A block of whole sectors keeps the progress.
  pub Keeps-sectors : (k : ℕ) → Keeps ped user job back (n * c) b Any Goes (k * c)
  Keeps-sectors k e t g size room p =
      block-Stage k e (before_block ped user job t) size room g (record {
        sectors = p.sectors;
        size = p.size;
        src_at = p.src_at;
        dst_at = p.dst_at;
        copied = p.copied;
      })
