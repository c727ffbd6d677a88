-- ===== src/OperationDetail.antt =====
-- src/OperationDetail.cc: the tree of the details of an operation. The time is a parameter; the texts
-- for the display are as they are given, and the signals for the display are left out. A child is added
-- without children of its own.
pub mod Order
pub mod Calls
use gparted_android.Prelude.{
  ℕ, suc, ◌+◌, Bool, true, false, ◌||◌, not, if◌then◌else◌, List, [], ◌∷◌, ◌++◌, ◌==◌,
}
use gparted_android.Prelude.Int.{ℤ, pos, negsuc, ◌-ℤ◌, eq_ℤ}
use gparted_android.Prelude.Text.{Text, codes}
use gparted_android.Utils.{num_to_str}

-- `OperationDetailStatus`
pub data DetailStatus : Type 0 where
  status_none status_execute status_success status_error status_info status_warning : DetailStatus

pub record State : Type 0 where
  pub description : Text
  pub status : DetailStatus
  pub treepath : Text
  pub cancelflag : ℕ
  pub time_start : ℤ
  pub time_elapsed : ℤ
  pub no_more_children : Bool

-- The children: those before the last one, the last one, and its children.
pub data Children : Type 0 where
  no_child : Children
  last : Children → State → Children → Children

abbrev pub Detail : Type 0
Detail = State × Children

abbrev pub size : Children → ℕ
size no_child = 0
size (last before s inner) = suc (size before)

abbrev pub is_error : DetailStatus → Bool
is_error status_error = true
is_error _ = false

-- The times, which only some of the statuses change.
abbrev pub with_times : DetailStatus → ℤ → State → State
with_times status_execute now s = record s { time_elapsed = negsuc 0; time_start = now }
with_times status_none now s = s
with_times status_info now s = s
with_times _ now s =
    if eq_ℤ s.time_start (negsuc 0) then s else record s { time_elapsed = now -ℤ s.time_start }

unfoldable pub set_status : DetailStatus → ℤ → State → State
set_status status now s =
    if is_error s.status then s else record (with_times status now s) { status = status }

-- The constructor with a description.
unfoldable pub new_detail : Text → DetailStatus → ℤ → State
unfolding set_status
new_detail description status now = set_status status now (record {
  description = description;
  status = status_none;
  treepath = [];
  cancelflag = 0;
  time_start = negsuc 0;
  time_elapsed = negsuc 0;
  no_more_children = false;
})

abbrev pub cancel_state : Bool → State → State
cancel_state force s = record s { cancelflag = if force then 2 else 1 }

-- The signal reaches every child, and from there its children.
unfoldable pub cancel_children : Bool → Children → Children
cancel_children force no_child = no_child
cancel_children force (last before s inner) =
    last (cancel_children force before) (cancel_state force s) (cancel_children force inner)

unfoldable pub cancel : Bool → Detail → Detail
unfolding cancel_children
cancel force (s, children) = (cancel_state force s, cancel_children force children)

abbrev pub is_cancelled : State → Bool
is_cancelled s = not (s.cancelflag == 0)

abbrev pub child_path : Text → ℕ → Text
child_path treepath i = treepath ++ codes ":" ++ num_to_str (pos i)

-- A child of a detail that was cancelled is cancelled.
unfoldable pub add_child_implement : State → Detail → Detail
add_child_implement child (s, children) =
    let placed : State = record child { treepath = child_path s.treepath (size children) } in
    (
      s,
      last children (if is_cancelled s then cancel_state (s.cancelflag == 2) placed else placed)
          no_child,
    )

-- The report of a child that comes too late.
abbrev pub late_report : Text → ℤ → State
late_report text now = new_detail text status_warning now

unfoldable pub add_child : Text → ℤ → State → Detail → Detail
unfolding add_child_implement
add_child text now child d =
    if d.0.no_more_children
    then add_child_implement child (add_child_implement (late_report text now) d)
    else add_child_implement child d

-- What a handler of `signal_capture_errors` adds.
abbrev pub add_children : Text → ℤ → List State → Detail → Detail
add_children text now [] d = d
add_children text now (child ∷ rest) d = add_children text now rest (add_child text now child d)

abbrev pub on_state : (State → State) → Detail → Detail
on_state f (s, children) = (f s, children)

unfoldable pub set_success_and_capture_errors : Text → ℤ → Bool → List State → Detail → Detail
unfolding set_status add_child
set_success_and_capture_errors text now success captured d =
    on_state (λ s. record s { no_more_children = true })
      (add_children text now captured
        (on_state (set_status (if success then status_success else status_error) now) d))

-- `get_last_child`: if there is none, one is added that shows an error.
abbrev pub with_last_child : Text → ℤ → Detail → Detail
with_last_child text now (s, no_child) =
    add_child text now (new_detail (codes "---") status_error now) (s, no_child)
with_last_child text now (s, last before t inner) = (s, last before t inner)

abbrev pub in_last : (Detail → Detail) → Detail → Detail
in_last f (s, no_child) = (s, no_child)
in_last f (s, last before t inner) = let (t', inner') = f (t, inner) in (s, last before t' inner')

-- A call on a detail, or on its last child; `text` is the message of a late child.
pub data Call : Type 0 where
  setting : DetailStatus → Call
  adding : State → Call
  finishing : Bool → List State → Call
  cancelling : Bool → Call
  on_last_child : Call → Call

unfoldable pub run : Text → ℤ → Call → Detail → Detail
unfolding set_status add_child set_success_and_capture_errors cancel
run text now (setting status) d = on_state (set_status status now) d
run text now (adding child) d = add_child text now child d
run text now (finishing success captured) d =
    set_success_and_capture_errors text now success captured d
run text now (cancelling force) d = cancel force d
run text now (on_last_child c) d = in_last (run text now c) (with_last_child text now d)
