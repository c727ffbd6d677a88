-- ===== src/OperationDetail/Order.antt =====
-- The tree of details keeps its shape, its cancellations and its errors.
use gparted_android.Prelude.{
  suc, ◌≡◌, refl, sym, subst, ap, ◌∙◌, Bool, true, false, ◌||◌, not, if◌then◌else◌, ◌==◌,
  Bool-cases, inl, inr,
}
use gparted_android.Prelude.Int.{ℤ, eq_ℤ, negsuc}
use gparted_android.Prelude.Text.{Text}
use gparted_android.OperationDetail.{
  DetailStatus, State, Children, no_child, last, Detail, size, is_error, with_times, set_status,
  cancel_state, cancel_children, cancel, is_cancelled, child_path, add_child_implement, on_state,
  status_success, status_error, status_none, status_execute, status_info, status_warning,
}

abbrev pub implies : Bool → Bool → Bool
implies a b = not a || b

-- Every child has the path of its parent with its own number, and is cancelled if its parent is.
abbrev pub AreInOrder : Text → Bool → Children → Type 0
AreInOrder treepath cancelled no_child = Unit
AreInOrder treepath cancelled (last before s inner) =
    (s.treepath ≡ child_path treepath (size before))
    × (implies cancelled (is_cancelled s) ≡ true)
    × AreInOrder s.treepath (is_cancelled s) inner
    × AreInOrder treepath cancelled before

abbrev pub IsInOrder : Detail → Type 0
IsInOrder (s, children) = AreInOrder s.treepath (is_cancelled s) children

-- What a call keeps of a detail: its path, that it was cancelled, and that it shows an error.
pub record Keeps (s t : State) : Type 0 where
  pub path : t.treepath ≡ s.treepath
  pub cancelled : implies (is_cancelled s) (is_cancelled t) ≡ true
  pub error : implies (is_error s.status) (is_error t.status) ≡ true

pub implies_refl : (b : Bool) → implies b b ≡ true
implies_refl true = refl
implies_refl false = refl

pub implies_trans : (a b c : Bool) → implies a b ≡ true → implies b c ≡ true → implies a c ≡ true
implies_trans true true c h k = k
implies_trans true false c h k = cc h
implies_trans false b c h k = refl

pub implies-true : (a : Bool) → implies a true ≡ true
implies-true true = refl
implies-true false = refl

pub Keeps-refl : (s : State) → Keeps s s
Keeps-refl s = record {
  path = refl;
  cancelled = implies_refl (is_cancelled s);
  error = implies_refl (is_error s.status);
}

elapsed-same :
    (b : Bool) (elapsed : ℤ) (s : State)
    → ((if b then s else record s { time_elapsed = elapsed }).treepath ≡ s.treepath)
      × ((if b then s else record s { time_elapsed = elapsed }).cancelflag ≡ s.cancelflag)
elapsed-same true elapsed s = (refl, refl)
elapsed-same false elapsed s = (refl, refl)

with_times-same :
    (status : DetailStatus) (now : ℤ) (s : State)
    → ((with_times status now s).treepath ≡ s.treepath)
      × ((with_times status now s).cancelflag ≡ s.cancelflag)
with_times-same status_none now s = (refl, refl)
with_times-same status_info now s = (refl, refl)
with_times-same status_execute now s = (refl, refl)
with_times-same status_success now s = elapsed-same (eq_ℤ s.time_start (negsuc 0)) _ s
with_times-same status_error now s = elapsed-same (eq_ℤ s.time_start (negsuc 0)) _ s
with_times-same status_warning now s = elapsed-same (eq_ℤ s.time_start (negsuc 0)) _ s

set_status-same :
    (status : DetailStatus) (now : ℤ) (s : State)
    → ((set_status status now s).treepath ≡ s.treepath)
      × ((set_status status now s).cancelflag ≡ s.cancelflag)
unfolding set_status
set_status-same status now s = elim (Bool-cases (is_error s.status)) [
  | inl e ↦ rw (e) (refl, refl)
  | inr e ↦ rw (e) (with_times-same status now s)
]

error-set_status :
    (status : DetailStatus) (now : ℤ) (s : State)
    → implies (is_error s.status) (is_error (set_status status now s).status) ≡ true
unfolding set_status
error-set_status status now s = elim (Bool-cases (is_error s.status)) [
  | inl e ↦ rw (e, e) refl
  | inr e ↦ rw (e) refl
]

pub set_status-Keeps :
    (status : DetailStatus) (now : ℤ) (s : State) → Keeps s (set_status status now s)
set_status-Keeps status now s =
    let (p, c) = set_status-same status now s in
    record {
      path = p;
      cancelled =
          ap (λ n. implies (is_cancelled s) (not (n == 0))) c ∙ implies_refl (is_cancelled s);
      error = error-set_status status now s;
    }

pub set_status-IsInOrder :
    (status : DetailStatus) (now : ℤ) (d : Detail)
    → IsInOrder d
    → IsInOrder (on_state (set_status status now) d)
set_status-IsInOrder status now (s, children) h =
    let (p, c) = set_status-same status now s in
    subst (λ t. AreInOrder t (is_cancelled (set_status status now s)) children) (sym p)
      (subst (λ n. AreInOrder s.treepath (not (n == 0)) children) (sym c) h)

cancelled-cancel_state : (force : Bool) (s : State) → is_cancelled (cancel_state force s) ≡ true
cancelled-cancel_state true s = refl
cancelled-cancel_state false s = refl

size-cancel_children :
    (force : Bool) (children : Children) → size (cancel_children force children) ≡ size children
unfolding cancel_children
size-cancel_children force no_child = refl
size-cancel_children force (last before s inner) = ap suc (size-cancel_children force before)

cancel_children-AreInOrder :
    (force : Bool) (treepath : Text) (cancelled : Bool) (children : Children)
    → AreInOrder treepath cancelled children
    → AreInOrder treepath true (cancel_children force children)
unfolding cancel_children
cancel_children-AreInOrder force treepath cancelled no_child h = tt
cancel_children-AreInOrder force treepath cancelled (last before s inner) (p, c, i, b) =
    let e = cancelled-cancel_state force s in
    (
      p ∙ ap (child_path treepath) (sym (size-cancel_children force before)),
      e,
      subst (λ x. AreInOrder s.treepath x (cancel_children force inner)) (sym e)
          (cancel_children-AreInOrder force s.treepath (is_cancelled s) inner i),
      cancel_children-AreInOrder force treepath cancelled before b,
    )

pub cancel-IsInOrder : (force : Bool) (d : Detail) → IsInOrder d → IsInOrder (cancel force d)
unfolding cancel
cancel-IsInOrder force (s, children) h =
    subst (λ x. AreInOrder s.treepath x (cancel_children force children))
      (sym (cancelled-cancel_state force s))
      (cancel_children-AreInOrder force s.treepath (is_cancelled s) children h)

pub cancel-Keeps : (force : Bool) (d : Detail) → Keeps d.0 (cancel force d).0
unfolding cancel
cancel-Keeps force (s, children) = record {
  path = refl;
  cancelled =
      ap (implies (is_cancelled s)) (cancelled-cancel_state force s)
      ∙ implies-true (is_cancelled s);
  error = implies_refl (is_error s.status);
}

pub add_child_implement-IsInOrder :
    (child : State) (d : Detail) → IsInOrder d → IsInOrder (add_child_implement child d)
unfolding add_child_implement
add_child_implement-IsInOrder child (s, children) h = elim (Bool-cases (is_cancelled s)) [
  | inl e ↦ rw (e) (refl, cancelled-cancel_state (s.cancelflag == 2) child, tt, rw (e) at h)
  | inr e ↦ rw (e) (refl, refl, tt, rw (e) at h)
]
