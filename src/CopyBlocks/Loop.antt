-- ===== src/CopyBlocks/Loop.antt =====
-- The copying of one range ends, and what holds of every block holds of the whole
-- (src/CopyBlocks.cc).
use gparted_android.Prelude.{
  ℕ, zero, suc, ◌+◌, ◌*◌, ◌/◌, ◌%◌, ◌≤◌, ◌<◌, ◌≡◌, ◌⊎◌, inl, inr, refl, ◌∙◌, ap, Bool, true, false,
  not, ◌&&◌, Option, none, some, by_test, if◌then◌else◌, arith,
}
use gparted_android.Prelude.Int.{ℤ, pos, ◌+ℤ◌, llabs, ltb_ℤ, eq_ℤ, eq_ℤ→eq, lt→ltb_ℤ, ge→ltb_ℤ}
use gparted_android.CopyBlocks.{
  Ped, Job, User, Copying, before_block, copy_block, goes_on, copy_rest, copy_partial,
  partial_block, try_block, move_forward, move_backward, count_block, transfer, run_block, Message,
  operation_canceled, received, written, move_offsets, num_blocks,
}
use gparted_android.CopyBlocks.Steps.{signed, llabs-signed, signed-add, signed_zero}
use native.Mathlib.Nat.{mod-add-div'}

pub ap2 : {A B C : Type 0} (f : A → B → C) {a a' : A} {b b' : B} → a ≡ a' → b ≡ b' → f a b ≡ f a' b'
ap2 f p q = λ i. f (p i) (q i)

module _ (ped : Ped) (user : User) (job : Job) where
  -- The same size of a block and the same count.
  abbrev pub Same : Copying (ped.World) → Copying (ped.World) → Type 0
  Same s t = (t.blocksize ≡ s.blocksize) × (t.done ≡ s.done)

  written-Same : (s : Copying (ped.World)) (out : Bool × ped.World) → Same s (written ped s out)
  written-Same s (true, w) = (refl, refl)
  written-Same s (false, w) = (refl, refl)

  received-Same :
      (s : Copying (ped.World)) (buf : Option (ped.Buffer)) → Same s (received ped job s buf)
  received-Same s none = (refl, refl)
  received-Same s (some buf) = written-Same s _

  transfer-Same : (s : Copying (ped.World)) → Same s (transfer ped job s)
  unfolding transfer
  transfer-Same s = received-Same s (
      ped.read s.world job.src_device s.offset_src
        (num_blocks ped s.blocksize (ped.sector_size job.src_device)))

  pub try_block-Same : (s : Copying (ped.World)) → Same s (try_block ped job s)
  unfolding try_block
  try_block-Same s =
      by_test (Same s) (eq_ℤ s.blocksize (pos 0)) s (transfer ped job s) (λ h. (refl, refl))
        λ h. transfer-Same s

  moved-Same :
      (b : Bool) (s : Copying (ped.World)) → Same s (if b then move_offsets ped job s else s)
  moved-Same true s = (refl, refl)
  moved-Same false s = (refl, refl)

  move_forward-Same : (s : Copying (ped.World)) → Same s (move_forward ped job s)
  unfolding move_forward
  move_forward-Same s = moved-Same (ltb_ℤ (pos 0) s.blocksize) s

  move_backward-Same : (s : Copying (ped.World)) → Same s (move_backward ped job s)
  unfolding move_backward
  move_backward-Same s = moved-Same (ltb_ℤ s.blocksize (pos 0)) s

  Same-trans : (r s t : Copying (ped.World)) → Same r s → Same s t → Same r t
  Same-trans r s t (a, b) (c, d) = (c ∙ a, d ∙ b)

  abbrev Counts : Copying (ped.World) → Copying (ped.World) → Type 0
  Counts s t = (t.blocksize ≡ s.blocksize) × (t.success ≡ true → t.done ≡ s.done +ℤ s.blocksize)

  count_block-Counts : (s t : Copying (ped.World)) → Same s t → Counts s (count_block ped t)
  unfolding count_block
  count_block-Counts s t (h, k) =
      by_test (Counts s) t.success (record t { done = t.done +ℤ t.blocksize }) t
        (λ e. (h, λ x. rw (h, k) refl)) λ e. (h, λ x. cc)

  run_block-Counts : (s t : Copying (ped.World)) → Same s t → Counts s (run_block ped job t)
  unfolding run_block
  run_block-Counts s t h =
      by_test (Counts s) t.cancel (record t { error_message = operation_canceled; success = false })
        (count_block ped (move_forward ped job (try_block ped job t))) (λ e. (h.0, λ x. cc))
        λ e. count_block-Counts s (move_forward ped job (try_block ped job t)) (
          Same-trans s t (move_forward ped job (try_block ped job t)) h (
            Same-trans t (try_block ped job t) (move_forward ped job (try_block ped job t))
              (try_block-Same t) (move_forward-Same (try_block ped job t))))

  -- A block keeps its size, and counts where it succeeds.
  pub copy_block-Counts : (s : Copying (ped.World)) → Counts s (copy_block ped job s)
  unfolding copy_block
  copy_block-Counts s = run_block-Counts s (move_backward ped job s) (move_backward-Same s)

  pub copy_rest_stops :
      (fuel : ℕ) (s : Copying (ped.World))
      → goes_on ped job s ≡ false
      → copy_rest ped user job fuel s ≡ some s
  unfolding copy_rest
  copy_rest_stops zero s h = rw h refl
  copy_rest_stops (suc fuel) s h = rw h refl

  copy_rest_step :
      (fuel : ℕ) (s : Copying (ped.World))
      → goes_on ped job s ≡ true
      → copy_rest ped user job (suc fuel) s
        ≡ copy_rest ped user job fuel (copy_block ped job (before_block ped user job s))
  unfolding copy_rest
  copy_rest_step fuel s h = rw h refl

  pub failed_stops : (s : Copying (ped.World)) → s.success ≡ false → goes_on ped job s ≡ false
  failed_stops s h = rw h refl

  no_rest :
      (s : Copying (ped.World))
      → s.success ≡ true
      → (s.success && not (eq_ℤ s.done (pos 0))) ≡ false
      → s.done ≡ pos 0
  no_rest s g x = eq_ℤ→eq s.done (pos 0) (ground (arith, g, x))

  -- A property `F` of the message of a copy that failed, and a property `I` of the world, the request to
  -- cancel and the two offsets, after `d` bytes that are copied in one direction.
  module _ (back : Bool) (l b : ℕ) (F : Message → Type 0)
      (I : ℕ → ped.World → Bool → ℤ → ℤ → Type 0) where
    abbrev pub Failed : Copying (ped.World) → Type 0
    Failed t = (t.success ≡ false) × F t.error_message

    abbrev pub Reached : ℕ → Copying (ped.World) → Type 0
    Reached d t = Failed t ⊎ ((t.success ≡ true) × I d t.world t.cancel t.offset_src t.offset_dst)

    -- A block of `n` bytes keeps the property.
    abbrev pub Keeps : ℕ → Type 0
    Keeps n =
        (d : ℕ) (s : Copying (ped.World))
        → s.success ≡ true
        → s.blocksize ≡ signed back n
        → d + n ≤ l
        → I d s.world s.cancel s.offset_src s.offset_dst
        → Reached (d + n) (copy_block ped job (before_block ped user job s))

    pub record At (q : ℕ) (s : Copying (ped.World)) : Type 0 where
      pub d : ℕ
      pub going : s.success ≡ true
      pub size : s.blocksize ≡ signed back b
      pub count : s.done ≡ signed back d
      pub left : d + q * b ≡ l
      pub holds : I d s.world s.cancel s.offset_src s.offset_dst

    goes_on-At :
        (q : ℕ) (s : Copying (ped.World))
        → job.length ≡ pos l
        → 0 < b
        → At (suc q) s
        → goes_on ped job s ≡ true
    goes_on-At q s e h a =
        let k : llabs s.done < l =
          omega (arith, ap llabs a.count, llabs-signed back a.d, a.left, h) in
        rw (a.going, e) (lt→ltb_ℤ (pos (llabs s.done)) (pos l) (omega (arith, k)))

    At-stops : (s : Copying (ped.World)) → job.length ≡ pos l → At 0 s → goes_on ped job s ≡ false
    At-stops s e a =
        let k : llabs s.done ≡ l = omega (arith, ap llabs a.count, llabs-signed back a.d, a.left) in
        rw (a.going, e) (ge→ltb_ℤ (pos (llabs s.done)) (pos l) (omega (arith, k)))

    At-step :
        (q : ℕ) (s : Copying (ped.World))
        → Keeps b
        → At (suc q) s
        → let t = copy_block ped job (before_block ped user job s) in Failed t ⊎ At q t
    At-step q s k a = elim (k a.d s a.going a.size (omega (arith, a.left)) a.holds) [
      | inl f ↦ inl f
      | inr (g, i) ↦
          let (size, count) = copy_block-Counts (before_block ped user job s) in
          inr (record {
            d = a.d + b;
            going = g;
            size = size ∙ a.size;
            count = count g ∙ ap2 ◌+ℤ◌ a.count a.size ∙ signed-add back a.d b;
            left = omega (arith, a.left);
            holds = i;
          })
    ]

    -- The loop ends, and where it ends with success all bytes are copied.
    pub copy_rest-Ends :
        (fuel q : ℕ) (s : Copying (ped.World))
        → job.length ≡ pos l
        → 0 < b
        → Keeps b
        → q ≤ fuel
        → At q s
        → (t : Copying (ped.World)) × (copy_rest ped user job fuel s ≡ some t) × (Failed t ⊎ At 0 t)
    copy_rest-Ends fuel zero s e h k le a = (s, copy_rest_stops fuel s (At-stops s e a), inr a)
    copy_rest-Ends zero (suc q) s e h k le a = absurd (omega (arith, le))
    copy_rest-Ends (suc fuel) (suc q) s e h k le a = elim (At-step q s k a) [
      | inl (f, m) ↦ (
        copy_block ped job (before_block ped user job s),
        copy_rest_step fuel s (goes_on-At q s e h a)
            ∙ copy_rest_stops fuel (copy_block ped job (before_block ped user job s))
                (failed_stops (copy_block ped job (before_block ped user job s)) f),
        inl (f, m),
      )
      | inr a' ↦
          let (t, run, end) = copy_rest-Ends fuel q _ e h k (omega (arith, le)) a' in
          (t, copy_rest_step fuel s (goes_on-At q s e h a) ∙ run, end)
    ]

    -- The part of a block comes first, and whole blocks are left.
    pub copy_partial-At :
        (s : Copying (ped.World))
        → Keeps (l % b)
        → s.success ≡ true
        → s.blocksize ≡ signed back b
        → s.done ≡ signed back (l % b)
        → I 0 s.world s.cancel s.offset_src s.offset_dst
        → Failed (copy_partial ped user job s) ⊎ At (l / b) (copy_partial ped user job s)
    unfolding copy_partial
    copy_partial-At s k g e c i =
        let u : Copying (ped.World) = before_block ped user job (partial_block ped s) in
        by_test (λ (t : Copying (ped.World)). Failed t ⊎ At (l / b) t)
          (s.success && not (eq_ℤ s.done (pos 0)))
          (record (copy_block ped job u) { blocksize = s.blocksize }) s
          (λ x. elim (k 0 (partial_block ped s) g c (omega (arith, mod-add-div' l b)) i) [
            | inl f ↦ inl f
            | inr (g', i') ↦ inr (record {
              d = 0 + l % b;
              going = g';
              size = e;
              count =
                  (copy_block-Counts u).1 g'
                  ∙ ap2 ◌+ℤ◌ (signed_zero back) c
                  ∙ signed-add back 0 (l % b);
              left = omega (arith, mod-add-div' l b);
              holds = i';
            })
          ])
          λ x.
            let z : s.done ≡ pos 0 = no_rest s g x in
            inr (record {
              d = 0;
              going = g;
              size = e;
              count = z ∙ signed_zero back;
              left =
                  omega
                    (arith, mod-add-div' l b, ap llabs c, ap llabs z, llabs-signed back (l % b));
              holds = i;
            })
