-- ===== src/Operation/Search.antt =====
-- How the searches of src/Operation.cc see a vector that an operation has changed.
use mathlib.Core.Path.{ap₂, fun_ext}
use gparted_android.Prelude.Int.{leb_ℤ}
use gparted_android.Prelude.{
  ℕ, zero, suc, ◌≡◌, refl, sym, ap, ◌∙◌, true, ◌&&◌, Option, none, some, List, [], ◌∷◌, set,
  Bool-cases, Option-cases, inl, inr, arith,
}
use gparted_android.Partition.{Partition, logicals, with_logicals, to_list-of_list}
use gparted_android.PartitionVector.{next_index, replace_at, find_extended_partition}
use gparted_android.Operation.Visual.{
  encloses, find_index, update_at, edit_logicals, edit_found, substitute_new,
}

-- The two partitions lie at the same place.
pub record SamePlace (p q : Partition) : Type 0 where
  pub start : p.sector_start ≡ q.sector_start
  pub end : p.sector_end ≡ q.sector_end

pub find_index-SamePlace :
    (p q : Partition) (ps : List Partition) → SamePlace p q → find_index p ps ≡ find_index q ps
unfolding find_index
find_index-SamePlace p q [] s = refl
find_index-SamePlace p q (r ∷ ps) s =
    let e : encloses p r ≡ encloses q r =
      ap₂ (λ a b. leb_ℤ r.sector_start a && leb_ℤ b r.sector_end) s.start s.end in
    rw (e, find_index-SamePlace p q ps s)

pub encloses_same : (p q : Partition) → SamePlace p q → encloses p q ≡ true
encloses_same p q s = rw (s.start, s.end) (ground arith)

pub next_index-some : (o : Option ℕ) (i : ℕ) → next_index o ≡ some (suc i) → o ≡ some i
next_index-some none i h = cc
next_index-some (some j) i h = ground arith

pub find_index-set :
    (p n : Partition) (ps : List Partition) (i : ℕ)
    → find_index p ps ≡ some i
    → encloses p n ≡ true
    → find_index p (set ps i n) ≡ some i
unfolding find_index
find_index-set p n [] i h e = cc
find_index-set p n (r ∷ ps) zero h e = rw e refl
find_index-set p n (r ∷ ps) (suc i) h e = elim (Bool-cases (encloses p r)) [
  | inl t ↦ cc (rw (t, find_index) at h)
  | inr f ↦ rw f (ap next_index (find_index-set p n ps i (next_index-some _ i (rw f at h)) e))
]

pub find_extended_partition-update_at :
    (f : Partition → Partition) (ps : List Partition) (e : ℕ)
    → ((x : Partition) → (f x).type ≡ x.type)
    → find_extended_partition (update_at e f ps) ≡ find_extended_partition ps
unfolding find_extended_partition
find_extended_partition-update_at f [] e h = refl
find_extended_partition-update_at f (p ∷ ps) zero h = rw (h p) refl
find_extended_partition-update_at f (p ∷ ps) (suc e) h =
    rw (find_extended_partition-update_at f ps e h) refl

pub update_at-update_at :
    (f g : Partition → Partition) (ps : List Partition) (e : ℕ)
    → update_at e f (update_at e g ps) ≡ update_at e (λ x. f (g x)) ps
update_at-update_at f g [] e = refl
update_at-update_at f g (p ∷ ps) zero = refl
update_at-update_at f g (p ∷ ps) (suc e) = ap (◌∷◌ p) (update_at-update_at f g ps e)

abbrev pub edit_one : (Partition → List Partition → List Partition) → Partition → Partition
edit_one f x = with_logicals (f x (logicals x)) x

pub edit_logicals-none :
    (f : Partition → List Partition → List Partition) (ps : List Partition)
    → find_extended_partition ps ≡ none
    → edit_logicals f ps ≡ ps
unfolding edit_logicals
edit_logicals-none f ps h = rw (h, edit_logicals) refl

pub edit_logicals-some :
    (f : Partition → List Partition → List Partition) (ps : List Partition) (e : ℕ)
    → find_extended_partition ps ≡ some e
    → edit_logicals f ps ≡ update_at e (edit_one f) ps
unfolding edit_logicals
edit_logicals-some f ps e h = rw (h, edit_logicals) refl

edit_one-edit_one :
    (f g : Partition → List Partition → List Partition)
    → ((x : Partition) (ls : List Partition) → f (with_logicals ls x) ≡ f x)
    → (x : Partition) → edit_one f (edit_one g x) ≡ edit_one (λ x ls. f x (g x ls)) x
edit_one-edit_one f g k x = rw (k x (g x (logicals x)), to_list-of_list (g x (logicals x))) refl

-- Two changes of the logicals are one.
pub edit_logicals-edit_logicals :
    (f g : Partition → List Partition → List Partition) (ps : List Partition)
    → ((x : Partition) (ls : List Partition) → f (with_logicals ls x) ≡ f x)
    → edit_logicals f (edit_logicals g ps) ≡ edit_logicals (λ x ls. f x (g x ls)) ps
edit_logicals-edit_logicals f g ps k = elim (Option-cases (find_extended_partition ps)) [
  | inl n ↦
      rw (edit_logicals-none g ps n, edit_logicals-none f ps n)
        (sym (edit_logicals-none (λ x ls. f x (g x ls)) ps n))
  | inr (e, h) ↦
      rw
        (
          edit_logicals-some g ps e h,
          edit_logicals-some (λ x ls. f x (g x ls)) ps e h,
          edit_logicals-some f _ e
              (find_extended_partition-update_at (edit_one g) ps e same_type ∙ h),
          update_at-update_at (edit_one f) (edit_one g) ps e,
        )
        (ap (λ k. update_at e k ps) (fun_ext (edit_one-edit_one f g k)))
]
  where
    same_type : (x : Partition) → (edit_one g x).type ≡ x.type
    same_type x = refl

set-set : (ps : List Partition) (i : ℕ) (m n : Partition) → set (set ps i m) i n ≡ set ps i n
set-set [] i m n = refl
set-set (p ∷ ps) zero m n = refl
set-set (p ∷ ps) (suc i) m n = ap (◌∷◌ p) (set-set ps i m n)

pub edit_found-none :
    (p : Partition) (f : ℕ → List Partition → List Partition) (ps : List Partition)
    → find_index p ps ≡ none
    → edit_found p f ps ≡ ps
unfolding edit_found
edit_found-none p f ps h = rw (h, edit_found) refl

pub edit_found-some :
    (p : Partition) (f : ℕ → List Partition → List Partition) (ps : List Partition) (i : ℕ)
    → find_index p ps ≡ some i
    → edit_found p f ps ≡ f i ps
unfolding edit_found
edit_found-some p f ps i h = rw (h, edit_found) refl

-- What `replace_at` puts where the search ends.
abbrev pub put : Partition → ℕ → List Partition → List Partition
put n i ls = replace_at ls i n

-- Replacing what is found twice is replacing it once.
pub edit_found-edit_found :
    (p q m n : Partition) (ps : List Partition)
    → SamePlace q p
    → SamePlace q m
    → edit_found q (put n) (edit_found p (put m) ps) ≡ edit_found p (put n) ps
unfolding replace_at
edit_found-edit_found p q m n ps s t = elim (Option-cases (find_index p ps)) [
  | inl h ↦
      rw
        (
          edit_found-none p (put m) ps h,
          edit_found-none p (put n) ps h,
          edit_found-none q (put n) ps (find_index-SamePlace q p ps s ∙ h),
        )
        refl
  | inr (i, h) ↦
      rw
        (
          edit_found-some p (put m) ps i h,
          edit_found-some p (put n) ps i h,
          edit_found-some q (put n) _ i
              (find_index-set q m ps i (find_index-SamePlace q p ps s ∙ h) (encloses_same q m t)),
        )
        (set-set ps i m n)
]

pub substitute_new-substitute_new :
    (o m q n : Partition) (ps : List Partition)
    → SamePlace q o
    → SamePlace q m
    → q.inside_extended ≡ o.inside_extended
    → substitute_new q n (substitute_new o m ps) ≡ substitute_new o n ps
unfolding substitute_new
substitute_new-substitute_new o m q n ps s t e = elim (Bool-cases o.inside_extended) [
  | inl h ↦
      simp (e, h)
        (edit_logicals-edit_logicals (λ x. edit_found q (put n)) (λ x. edit_found o (put m)) ps
            (λ x ls. refl)
          ∙ ap (λ k. edit_logicals k ps)
              (fun_ext (λ x. fun_ext (λ ls. edit_found-edit_found o q m n ls s t))))
  | inr h ↦ simp (e, h) (edit_found-edit_found o q m n ps s t)
]
