-- ===== src/CopyBlocks/Failures.antt =====
-- Which failures end a copy (src/CopyBlocks.cc).
use gparted_android.Prelude.{
  ℕ, ◌%◌, ◌<◌, ◌≡◌, ◌≢◌, ◌⊎◌, inl, inr, refl, sym, ◌∙◌, ap, subst, Bool, true, false, Option, some,
  none, by_test, if◌then◌else◌, arith, ◌&&◌, ◌||◌,
}
use gparted_android.Prelude.Int.{ℤ, pos, ◌+ℤ◌, llabs, ltb_ℤ, eq_ℤ}
use gparted_android.CopyBlocks.{
  Ped, Job, User, Message, no_message, operation_canceled, Copying, copy_block, run_block,
  count_block, move_forward, move_backward, move_offsets, try_block, transfer, received, written,
  before_block, copy, num_blocks,
}
use gparted_android.CopyBlocks.Loop.{Keeps}
use gparted_android.CopyBlocks.Whole.{copy-Ended, clip}
use gparted_android.CopyBlocks.Pieces.{clip-pos}
use gparted_android.Prelude.Text.{text_eq}

module _ (ped : Ped) (job : Job) (P : Bool → Message → ped.World → Bool → Type 0) where
  abbrev Holds : Copying (ped.World) → Type 0
  Holds t = P t.success t.error_message t.world t.cancel

  moved-Holds :
      (b : Bool) (t : Copying (ped.World))
      → Holds t
      → Holds (if b then move_offsets ped job t else t)
  moved-Holds true t h = h
  moved-Holds false t h = h

  counted-Holds : (t : Copying (ped.World)) → Holds t → Holds (count_block ped t)
  unfolding count_block
  counted-Holds t h =
      by_test Holds t.success (record t { done = t.done +ℤ t.blocksize }) t (λ x. h) λ x. h

  forward-Holds : (t : Copying (ped.World)) → Holds t → Holds (move_forward ped job t)
  unfolding move_forward
  forward-Holds t h = moved-Holds (ltb_ℤ (pos 0) t.blocksize) t h

  ran-Holds :
      (t : Copying (ped.World))
      → (t.cancel ≡ true → P false operation_canceled t.world t.cancel)
      → (t.cancel ≡ false → Holds (try_block ped job t))
      → Holds (run_block ped job t)
  unfolding run_block
  ran-Holds t h k =
      by_test Holds t.cancel (record t { error_message = operation_canceled; success = false })
        (count_block ped (move_forward ped job (try_block ped job t))) h
        λ x.
          counted-Holds (move_forward ped job (try_block ped job t))
            (forward-Holds (try_block ped job t) (k x))

  -- A property of a block that does not look at the offsets.
  block-Holds :
      (t : Copying (ped.World))
      → (t.cancel ≡ true → P false operation_canceled t.world t.cancel)
      → ((o o' : ℤ)
          → t.cancel ≡ false
          → Holds (try_block ped job (record t { offset_src = o; offset_dst = o' })))
      → Holds (copy_block ped job t)
  unfolding copy_block move_backward
  block-Holds t h k =
      by_test (λ (u : Copying (ped.World)). Holds (run_block ped job u)) (ltb_ℤ t.blocksize (pos 0))
        (move_offsets ped job t) t (λ x. ran-Holds (move_offsets ped job t) h (k _ _))
        λ x. ran-Holds t h (k _ _)

-- The user cancels nothing.
pub record Patient (user : User) : Type 0 where
  pub no_request : (n : ℕ) → user.request n ≡ none
  pub no_flag : (n : ℕ) → user.cancelflag n ≡ 0

module _ (ped : Ped) (user : User) (job : Job) where
  module _ (unreadable : (w : ped.World) (o count : ℤ) → ped.read w job.src_device o count ≡ none)
      (patient : Patient user) (start : ped.World) where
    abbrev Untouched : Bool → Message → ped.World → Bool → Type 0
    Untouched success _ w cancel = (success ≡ true) × (w ≡ start) × (cancel ≡ false)

    try_block-Untouched :
        (t : Copying (ped.World))
        → Untouched t.success t.error_message t.world t.cancel
        → let u = try_block ped job t in Untouched u.success u.error_message u.world u.cancel
    unfolding try_block transfer
    try_block-Untouched t h =
        by_test (λ (u : Copying (ped.World)). Untouched u.success u.error_message u.world u.cancel)
          (eq_ℤ t.blocksize (pos 0)) t (transfer ped job t) (λ x. h)
          λ x.
            subst
              (λ (b : Option (ped.Buffer)).
                let u = received ped job t b in
                Untouched u.success u.error_message u.world u.cancel)
              (sym (
                unreadable t.world t.offset_src
                  (num_blocks ped t.blocksize (ped.sector_size job.src_device))))
              h

    abbrev Stays : ℕ → ped.World → Bool → ℤ → ℤ → Type 0
    Stays n w cancel o o' = (w ≡ start) × (cancel ≡ false)

    abbrev Never : Message → Type 0
    Never m = ⊥

    not_cancelled :
        (s : Copying (ped.World)) → s.cancel ≡ false → (before_block ped user job s).cancel ≡ false
    not_cancelled s h = rw (patient.no_request s.blocks) h

    Keeps-Stays : (back : Bool) (l b n : ℕ) → Keeps ped user job back l b Never Stays n
    Keeps-Stays back l b n d t g e le (w, c) =
        let k = not_cancelled t c in
        let (success, world, cancel) =
          block-Holds ped job Untouched (before_block ped user job t)
            (λ x. absurd (ground (arith, k, x)))
            λ o o' x.
              try_block-Untouched
                (record (before_block ped user job t) { offset_src = o; offset_dst = o' })
                (g, w, k) in
        inr (success, (world, cancel))

    -- Where no sector of the source can be read, a copy of a range that is not empty, whose devices can be
    -- opened and which is not cancelled, reports success and the whole length as done, and changes nothing.
    pub copy-blind :
        (blocks : ℕ) (src_start dst_start : ℤ) (l size : ℕ) (total : ℤ)
        → job.length ≡ pos l
        → 0 < l
        → 0 < size
        → ped.opens start job.src_device ≡ true
        → ped.opens start job.dst_device ≡ true
        → (t : Copying (ped.World)) × (copy ped user job start blocks src_start dst_start
              (pos size)
              total
            ≡ some (t, total +ℤ pos l))
          × (t.success ≡ true)
          × (t.world ≡ start)
    copy-blind blocks s d l size total e h h' o o' =
        let (t, run, end) =
          copy-Ended ped user job (ltb_ℤ s d) l (clip l size) Never Stays start blocks s d size
            total e (clip-pos l size h h') refl refl
            (Keeps-Stays (ltb_ℤ s d) l (clip l size) (clip l size))
            (Keeps-Stays (ltb_ℤ s d) l (clip l size) (l % clip l size))
            (λ x. absurd (ground (arith, o, o', x))) (refl, rw (patient.no_flag blocks) refl) in
        elim end [
          | inl (g, m) ↦ absurd m
          | inr (g, e', (w, c)) ↦ (t, run ∙ ap (λ (n : ℕ). some (t, total +ℤ pos n)) e', g, w)
        ]

  -- It goes on, or it stops with a message.
  abbrev Explained : Bool → Message → ped.World → Bool → Type 0
  Explained success m _ _ = (success ≡ true) ⊎ ((success ≡ false) × (m ≢ no_message))

  abbrev Explains : Copying (ped.World) → Type 0
  Explains t = Explained t.success t.error_message t.world t.cancel

  written-Explains :
      (t : Copying (ped.World)) (out : Bool × ped.World) → Explains (written ped t out)
  written-Explains t (true, w) = inl refl
  written-Explains t (false, w) = inr (refl, λ h. absurd (ground (arith, h)))

  received-Explains :
      (t : Copying (ped.World)) (b : Option (ped.Buffer))
      → t.success ≡ true
      → Explains (received ped job t b)
  received-Explains t none g = inl g
  received-Explains t (some b) g = written-Explains t (
      ped.write t.world job.dst_device b t.offset_dst
        (num_blocks ped t.blocksize (ped.sector_size job.dst_device)))

  try_block-Explains : (t : Copying (ped.World)) → t.success ≡ true → Explains (try_block ped job t)
  unfolding try_block transfer
  try_block-Explains t g =
      by_test Explains (eq_ℤ t.blocksize (pos 0)) t (transfer ped job t) (λ x. inl g)
        λ x.
          received-Explains t
            (ped.read t.world job.src_device t.offset_src
              (num_blocks ped t.blocksize (ped.sector_size job.src_device)))
            g

  abbrev Nothing : ℕ → ped.World → Bool → ℤ → ℤ → Type 0
  Nothing n w cancel o o' = Unit {0}

  module _ (w : ped.World) where
    -- Why a copy fails: a device cannot be opened, or the message says it.
    abbrev pub Cause : Message → Type 0
    Cause m =
        (((ped.opens w job.src_device)
            && (text_eq job.src_device job.dst_device || ped.opens w job.dst_device))
          ≡ false)
        ⊎ (m ≢ no_message)

    Keeps-Nothing : (back : Bool) (l b n : ℕ) → Keeps ped user job back l b Cause Nothing n
    Keeps-Nothing back l b n d t g e le p =
        elim (block-Holds ped job Explained (before_block ped user job t)
          (λ x. inr (refl, λ h. absurd (ground (arith, h))))
          λ o o' x.
            try_block-Explains
              (record (before_block ped user job t) { offset_src = o; offset_dst = o' }) g) [
                | inl x ↦ inr (x, tt)
                | inr (x, m) ↦ inl (x, inr m)
              ]

    -- A copy of a range that is not empty ends, whatever fails and whenever the user cancels it. If it
    -- returns true all its bytes are done; if not, a device could not be opened or there is a message. The
    -- bytes that are done are added to the total.
    pub copy-Accounts :
        (blocks : ℕ) (src_start dst_start : ℤ) (l size : ℕ) (total : ℤ)
        → job.length ≡ pos l
        → 0 < l
        → 0 < size
        → (t : Copying (ped.World)) × (copy ped user job w blocks src_start dst_start
              (pos size)
              total
            ≡ some (t, total +ℤ pos (llabs t.done)))
          × (((t.success ≡ true) × (llabs t.done ≡ l))
              ⊎ ((t.success ≡ false) × Cause t.error_message))
    copy-Accounts blocks s d l size total e h h' =
        let (t, run, end) =
          copy-Ended ped user job (ltb_ℤ s d) l (clip l size) Cause Nothing w blocks s d size total
            e (clip-pos l size h h') refl refl
            (Keeps-Nothing (ltb_ℤ s d) l (clip l size) (clip l size))
            (Keeps-Nothing (ltb_ℤ s d) l (clip l size) (l % clip l size)) inl tt in
        elim end [ inl (g, m) ↦ (t, run, inr (g, m)) | inr (g, e', x) ↦ (t, run, inl (g, e')) ]
