-- ===== src/OperationDetail/Calls.antt =====
-- Every call keeps the details in order.
use gparted_android.Prelude.{
  ◌≡◌, refl, sym, subst, ◌∙◌, Bool, true, false, if◌then◌else◌, List, [], ◌∷◌, Bool-cases, inl, inr,
}
use gparted_android.Prelude.Int.{ℤ}
use gparted_android.Prelude.Text.{Text, codes}
use gparted_android.OperationDetail.{
  State, no_child, last, Detail, set_status, new_detail, is_cancelled, add_child_implement,
  late_report, add_child, add_children, on_state, set_success_and_capture_errors, with_last_child,
  in_last, Call, setting, adding, finishing, cancelling, on_last_child, run, status_success,
  status_error,
}
use gparted_android.OperationDetail.Order.{
  IsInOrder, Keeps, implies_trans, Keeps-refl, set_status-Keeps, set_status-IsInOrder,
  cancel-IsInOrder, cancel-Keeps, add_child_implement-IsInOrder,
}

state-add_child :
    (text : Text) (now : ℤ) (child : State) (d : Detail) → (add_child text now child d).0 ≡ d.0
unfolding add_child add_child_implement
state-add_child text now child (s, children) = elim (Bool-cases s.no_more_children) [
  | inl e ↦ rw (e) refl
  | inr e ↦ rw (e) refl
]

add_child-IsInOrder :
    (text : Text) (now : ℤ) (child : State) (d : Detail)
    → IsInOrder d
    → IsInOrder (add_child text now child d)
unfolding add_child
add_child-IsInOrder text now child (s, children) h = by_report s.no_more_children
  where
    by_report :
        (b : Bool)
        → IsInOrder (
            if b
            then add_child_implement child
                (add_child_implement (late_report text now) (s, children))
            else add_child_implement child (s, children))
    by_report true =
        add_child_implement-IsInOrder child
          (add_child_implement (late_report text now) (s, children))
          (add_child_implement-IsInOrder (late_report text now) (s, children) h)
    by_report false = add_child_implement-IsInOrder child (s, children) h

state-add_children :
    (text : Text) (now : ℤ) (cs : List State) (d : Detail) → (add_children text now cs d).0 ≡ d.0
state-add_children text now [] d = refl
state-add_children text now (c ∷ cs) d =
    state-add_children text now cs (add_child text now c d) ∙ state-add_child text now c d

add_children-IsInOrder :
    (text : Text) (now : ℤ) (cs : List State) (d : Detail)
    → IsInOrder d
    → IsInOrder (add_children text now cs d)
add_children-IsInOrder text now [] d h = h
add_children-IsInOrder text now (c ∷ cs) d h =
    add_children-IsInOrder text now cs (add_child text now c d) (add_child-IsInOrder text now c d h)

completed-IsInOrder :
    (d : Detail) → IsInOrder d → IsInOrder (on_state (λ s. record s { no_more_children = true }) d)
completed-IsInOrder (s, children) h = h

finishing-IsInOrder :
    (text : Text) (now : ℤ) (success : Bool) (captured : List State) (d : Detail)
    → IsInOrder d
    → IsInOrder (set_success_and_capture_errors text now success captured d)
unfolding set_success_and_capture_errors
finishing-IsInOrder text now success captured d h =
    let status = if success then status_success else status_error in
    completed-IsInOrder (add_children text now captured (on_state (set_status status now) d)) (
      add_children-IsInOrder text now captured (on_state (set_status status now) d)
        (set_status-IsInOrder status now d h))

completed-Keeps :
    (s : State) (d : Detail)
    → Keeps s d.0
    → Keeps s (on_state (λ t. record t { no_more_children = true }) d).0
completed-Keeps s (t, children) k = record {
  path = k.path;
  cancelled = k.cancelled;
  error = k.error;
}

finishing-Keeps :
    (text : Text) (now : ℤ) (success : Bool) (captured : List State) (d : Detail)
    → Keeps d.0 (set_success_and_capture_errors text now success captured d).0
unfolding set_success_and_capture_errors
finishing-Keeps text now success captured (s, children) =
    let status = if success then status_success else status_error in
    completed-Keeps s (add_children text now captured (set_status status now s, children)) (
      subst (Keeps s)
        (sym (state-add_children text now captured (set_status status now s, children)))
        (set_status-Keeps status now s))

with_last_child-IsInOrder :
    (text : Text) (now : ℤ) (d : Detail) → IsInOrder d → IsInOrder (with_last_child text now d)
with_last_child-IsInOrder text now (s, no_child) h =
    add_child-IsInOrder text now (new_detail (codes "---") status_error now) (s, no_child) h
with_last_child-IsInOrder text now (s, last before t inner) h = h

state-with_last_child : (text : Text) (now : ℤ) (d : Detail) → (with_last_child text now d).0 ≡ d.0
state-with_last_child text now (s, no_child) =
    state-add_child text now (new_detail (codes "---") status_error now) (s, no_child)
state-with_last_child text now (s, last before t inner) = refl

in_last-IsInOrder :
    (f : Detail → Detail) (d : Detail)
    → ((e : Detail) → IsInOrder e → IsInOrder (f e))
    → ((e : Detail) → Keeps e.0 (f e).0)
    → IsInOrder d
    → IsInOrder (in_last f d)
in_last-IsInOrder f (s, no_child) o k h = h
in_last-IsInOrder f (s, last before t inner) o k (p, c, i, b) =
    let m = k (t, inner) in
    (
      m.path ∙ p,
      implies_trans (is_cancelled s) (is_cancelled t) (is_cancelled (f (t, inner)).0) c m.cancelled,
      o (t, inner) i,
      b,
    )

state-in_last : (f : Detail → Detail) (d : Detail) → (in_last f d).0 ≡ d.0
state-in_last f (s, no_child) = refl
state-in_last f (s, last before t inner) = refl

run-Keeps : (text : Text) (now : ℤ) (c : Call) (d : Detail) → Keeps d.0 (run text now c d).0
unfolding run
run-Keeps text now (setting status) (s, children) = set_status-Keeps status now s
run-Keeps text now (adding child) d =
    subst (Keeps d.0) (sym (state-add_child text now child d)) (Keeps-refl d.0)
run-Keeps text now (finishing success captured) d = finishing-Keeps text now success captured d
run-Keeps text now (cancelling force) d = cancel-Keeps force d
run-Keeps text now (on_last_child c) d =
    subst (Keeps d.0)
      (sym (
        state-in_last (run text now c) (with_last_child text now d)
        ∙ state-with_last_child text now d))
      (Keeps-refl d.0)

run-order :
    (text : Text) (now : ℤ) (c : Call) (d : Detail) → IsInOrder d → IsInOrder (run text now c d)
unfolding run
run-order text now (setting status) d h = set_status-IsInOrder status now d h
run-order text now (adding child) d h = add_child-IsInOrder text now child d h
run-order text now (finishing success captured) d h =
    finishing-IsInOrder text now success captured d h
run-order text now (cancelling force) d h = cancel-IsInOrder force d h
run-order text now (on_last_child c) d h =
    in_last-IsInOrder (run text now c) (with_last_child text now d) (run-order text now c)
      (run-Keeps text now c) (with_last_child-IsInOrder text now d h)

-- Whatever is called on a detail or on a last child below it, the details stay in order: every child
-- has the path of its parent with its own number, and is cancelled if its parent is. The detail keeps
-- its path, and once it is cancelled or shows an error it stays so.
pub run-IsInOrder :
    (text : Text) (now : ℤ) (c : Call) (d : Detail)
    → IsInOrder d
    → IsInOrder (run text now c d) × Keeps d.0 (run text now c d).0
run-IsInOrder text now c d h = (run-order text now c d h, run-Keeps text now c d)
