-- ===== src/CopyBlocks/Whole.antt =====
-- A copy from its start to its end (src/CopyBlocks.cc): it ends, and where it succeeds every byte of
-- the range was copied.
use gparted_android.Prelude.{
  ℕ, ◌+◌, ◌/◌, ◌%◌, ◌<◌, ◌≡◌, ◌⊎◌, inl, inr, refl, sym, ◌∙◌, ap, subst, Bool, true, false, ltb, not,
  ◌==◌, ◌&&◌, some, by_test, if◌then◌else◌, arith,
}
use gparted_android.Prelude.Int.{
  ℤ, pos, ◌+ℤ◌, ◌-ℤ◌, ◌*ℤ◌, ◌/ℤ◌, ◌%ℤ◌, llabs, ltb_ℤ, eq_ℤ, eq_of_parts,
}
use gparted_android.CopyBlocks.{
  Ped, Job, Message, no_message, set_cancel, User, Copying, copy_rest, copy_partial,
  choose_direction, turned, opened, open_devices, copy_thread, constructed, copy, copy_block,
  before_block, partial_block,
}
use gparted_android.CopyBlocks.Steps.{signed, llabs-signed, negated}
use gparted_android.CopyBlocks.Loop.{
  ap2, Failed, Keeps, At, copy_rest-Ends, copy_partial-At, copy_rest_stops, failed_stops,
}
use native.Mathlib.Nat.{div-le_self, zero-mod}

copy_partial_fails :
    (ped : Ped) (user : User) (job : Job) (s : Copying (ped.World))
    → s.success ≡ false
    → copy_partial ped user job s ≡ s
unfolding copy_partial
copy_partial_fails ped user job s h =
    by_test (λ (t : Copying (ped.World)). t ≡ s) (s.success && not (eq_ℤ s.done (pos 0)))
      (record (copy_block ped job (before_block ped user job (partial_block ped s))) {
        blocksize = s.blocksize;
      })
      s (λ x. absurd (ground (arith, h, x))) λ x. refl

-- Where the copy begins: at the end of the range if it goes backwards.
abbrev pub begin_src : (ped : Ped) → Job → Bool → ℤ → ℤ
begin_src ped job back offset =
    if back then offset +ℤ job.length /ℤ ped.sector_size job.src_device else offset

abbrev pub begin_dst : (ped : Ped) → Job → Bool → ℤ → ℤ
begin_dst ped job back offset =
    if back
    then offset
      +ℤ (job.length +ℤ (ped.sector_size job.dst_device -ℤ pos 1)) /ℤ ped.sector_size job.dst_device
    else offset

-- Whether the copy is cancelled from its start.
abbrev pub start_cancel : User → Job → ℕ → Bool
start_cancel user job blocks =
    if user.cancelflag blocks == 0
    then false
    else set_cancel job.cancel_safe (user.cancelflag blocks == 2) false

-- The size of a block is at most the length.
abbrev pub clip : ℕ → ℕ → ℕ
clip l size = if ltb l size then l else size

mod_pos : (l b : ℕ) → pos l %ℤ pos b ≡ pos (l % b)
unfolding ◌%ℤ◌
mod_pos l b =
    let e : b + 0 ≡ b = omega arith in
    eq_of_parts _ _ (ground (arith, ap (λ (t : ℕ). l % t) e, ap (λ (t : ℕ). 0 % t) e, zero-mod b))

clipped : (l size : ℕ) → (if ltb_ℤ (pos l) (pos size) then pos l else pos size) ≡ pos (clip l size)
clipped l size = ground arith

forwards : (n : ℕ) → pos n ≡ signed false n
unfolding signed
forwards n = refl

module _ (ped : Ped) (user : User) (job : Job) (back : Bool) (l b : ℕ) (F : Message → Type 0)
    (I : ℕ → ped.World → Bool → ℤ → ℤ → Type 0) where
  -- The copy failed, or it copied `l` bytes.
  abbrev pub Ended : Copying (ped.World) → Type 0
  Ended t =
      Failed ped user job back l b F I t
      ⊎ ((t.success ≡ true) × (llabs t.done ≡ l) × I l t.world t.cancel t.offset_src t.offset_dst)

  At-Ended :
      (t : Copying (ped.World))
      → Failed ped user job back l b F I t ⊎ At ped user job back l b F I 0 t
      → Ended t
  At-Ended t (inl f) = inl f
  At-Ended t (inr a) =
      let e : a.d ≡ l = omega (arith, a.left) in
      inr (
        a.going,
        omega (arith, ap llabs a.count, llabs-signed back a.d, e),
        subst (λ (d : ℕ). I d t.world t.cancel t.offset_src t.offset_dst) e a.holds,
      )

  copied-Ended :
      (s : Copying (ped.World))
      → job.length ≡ pos l
      → 0 < b
      → Keeps ped user job back l b F I b
      → Failed ped user job back l b F I s ⊎ At ped user job back l b F I (l / b) s
      → (t : Copying (ped.World)) × (copy_rest ped user job (llabs job.length) s ≡ some t) × Ended t
  copied-Ended s e h k (inl (f, m)) = (
    s,
    copy_rest_stops ped user job (llabs job.length) s (failed_stops ped user job s f),
    inl (f, m),
  )
  copied-Ended s e h k (inr a) =
      let (t, run, end) =
        copy_rest-Ends ped user job back l b F I (llabs job.length) (l / b) s e h k
          (omega (arith, ap llabs e, div-le_self l b)) a in
      (t, run, At-Ended t end)

  -- What the choice of the direction leaves.
  chosen :
      (s : Copying (ped.World))
      → back ≡ ltb_ℤ s.offset_src s.offset_dst
      → s.blocksize ≡ pos b
      → s.done ≡ pos (l % b)
      → let t = choose_direction ped job s in
        (t.blocksize ≡ signed back b) × (t.done ≡ signed back (l % b))
  unfolding choose_direction
  chosen s h e c =
      by_test
        (λ (t : Copying (ped.World)).
          (t.blocksize ≡ signed back b) × (t.done ≡ signed back (l % b)))
        (ltb_ℤ s.offset_src s.offset_dst) (turned ped job s) s
        (λ x. (
          ap (λ (z : ℤ). z -ℤ pos 2 *ℤ z) e ∙ negated b ∙ sym (ap (λ c. signed c b) (h ∙ x)),
          ap (λ (z : ℤ). z -ℤ pos 2 *ℤ z) c
              ∙ negated (l % b)
              ∙ sym (ap (λ c. signed c (l % b)) (h ∙ x)),
        ))
        λ x. (
          e ∙ forwards b ∙ sym (ap (λ c. signed c b) (h ∙ x)),
          c ∙ forwards (l % b) ∙ sym (ap (λ c. signed c (l % b)) (h ∙ x)),
        )

  -- A state from which the copy of the blocks can start.
  abbrev pub Ready : Copying (ped.World) → Type 0
  Ready s =
      (back ≡ ltb_ℤ s.offset_src s.offset_dst)
      × (s.blocksize ≡ pos b)
      × (s.done ≡ pos (l % b))
      × (open_devices ped job s ≡ false → F s.error_message)
      × I 0 s.world s.cancel (begin_src ped job back s.offset_src)
          (begin_dst ped job back s.offset_dst)

  begin_at :
      (s : Copying (ped.World)) (c : Bool)
      → back ≡ c
      → I 0 s.world s.cancel
          (begin_src ped job back s.offset_src)
          (begin_dst ped job back s.offset_dst)
      → I 0 s.world s.cancel (begin_src ped job c s.offset_src) (begin_dst ped job c s.offset_dst)
  begin_at s c e i =
      subst
        (λ (c : Bool).
          I 0 s.world s.cancel (begin_src ped job c s.offset_src)
            (begin_dst ped job c s.offset_dst))
        e i

  begins :
      (s : Copying (ped.World))
      → back ≡ ltb_ℤ s.offset_src s.offset_dst
      → I 0 s.world s.cancel
          (begin_src ped job back s.offset_src)
          (begin_dst ped job back s.offset_dst)
      → let t = choose_direction ped job s in I 0 t.world t.cancel t.offset_src t.offset_dst
  unfolding choose_direction
  begins s h i =
      by_test (λ (t : Copying (ped.World)). I 0 t.world t.cancel t.offset_src t.offset_dst)
        (ltb_ℤ s.offset_src s.offset_dst) (turned ped job s) s (λ x. begin_at s true (h ∙ x) i)
        λ x. begin_at s false (h ∙ x) i

  opened-At :
      (s : Copying (ped.World))
      → Keeps ped user job back l b F I (l % b)
      → Ready s
      → let t = copy_partial ped user job (opened ped job s) in
        Failed ped user job back l b F I t ⊎ At ped user job back l b F I (l / b) t
  opened-At s k (h, e, c, f, i) =
      by_test
        (λ (u : Copying (ped.World)).
          let t = copy_partial ped user job u in
          Failed ped user job back l b F I t ⊎ At ped user job back l b F I (l / b) t)
        (open_devices ped job s) (record (choose_direction ped job s) { success = true })
        (record s { success = false })
        (λ x.
          copy_partial-At ped user job back l b F I
            (record (choose_direction ped job s) { success = true }) k refl (chosen s h e c).0
            (chosen s h e c).1 (begins s h i))
        λ x.
          rw (copy_partial_fails ped user job (record s { success = false }) refl) (inl (refl, f x))

  -- The copy ends, and fails or copies all bytes.
  pub copy_thread-Ended :
      (s : Copying (ped.World))
      → job.length ≡ pos l
      → 0 < b
      → Keeps ped user job back l b F I b
      → Keeps ped user job back l b F I (l % b)
      → Ready s
      → (t : Copying (ped.World)) × (copy_thread ped user job s ≡ some t) × Ended t
  unfolding copy_thread
  copy_thread-Ended s e h k k' r =
      copied-Ended (copy_partial ped user job (opened ped job s)) e h k (opened-At s k' r)

  constructed-Ready :
      (w : ped.World) (blocks : ℕ) (src_start dst_start : ℤ) (size : ℕ)
      → job.length ≡ pos l
      → b ≡ clip l size
      → back ≡ ltb_ℤ src_start dst_start
      → (open_devices ped job (constructed ped user job w blocks src_start dst_start (pos size))
            ≡ false
          → F no_message)
      → I 0 w
          (start_cancel user job blocks)
          (begin_src ped job back src_start)
          (begin_dst ped job back dst_start)
      → Ready (constructed ped user job w blocks src_start dst_start (pos size))
  constructed-Ready w blocks src_start dst_start size e c h f i =
      let k : (if ltb_ℤ job.length (pos size) then job.length else pos size) ≡ pos b =
        ap (λ (z : ℤ). if ltb_ℤ z (pos size) then z else pos size) e
        ∙ clipped l size
        ∙ sym (ap pos c) in
      (h, k, ap2 ◌%ℤ◌ e k ∙ mod_pos l b, f, i)

  -- A copy ends, whatever fails; it fails, or it copies all bytes, and what every block keeps holds at
  -- its end. It adds the bytes that were copied to the total.
  pub copy-Ended :
      (w : ped.World) (blocks : ℕ) (src_start dst_start : ℤ) (size : ℕ) (total : ℤ)
      → job.length ≡ pos l
      → 0 < b
      → b ≡ clip l size
      → back ≡ ltb_ℤ src_start dst_start
      → Keeps ped user job back l b F I b
      → Keeps ped user job back l b F I (l % b)
      → (open_devices ped job (constructed ped user job w blocks src_start dst_start (pos size))
            ≡ false
          → F no_message)
      → I 0 w
          (start_cancel user job blocks)
          (begin_src ped job back src_start)
          (begin_dst ped job back dst_start)
      → (t : Copying (ped.World)) × (copy ped user job w blocks src_start dst_start (pos size) total
          ≡ some (t, total +ℤ pos (llabs t.done)))
        × Ended t
  unfolding copy
  copy-Ended w blocks src_start dst_start size total e h c d k k' f i =
      let (t, run, end) =
        copy_thread-Ended (constructed ped user job w blocks src_start dst_start (pos size)) e h k
          k' (constructed-Ready w blocks src_start dst_start size e c d f i) in
      (t, rw (run, copy) refl, end)
