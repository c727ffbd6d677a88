-- ===== src/Pending/Laws.antt =====
-- What the list of pending operations promises (`add_operation` and `merge_operation` of
-- src/Win_GParted.cc).
use mathlib.Core.Path.{subst}
use gparted_android.Prelude.{
  ◌≡◌, refl, sym, ap, ◌∙◌, if◌then◌else◌, Bool, true, false, Option, none, some, List, [], ◌∷◌,
  ◌++◌, All, Bool-cases, Option-cases, inl, inr,
}
use gparted_android.Prelude.Int.{pos}
use gparted_android.Utils.{Gettext}
use gparted_android.Device.{Device}
use gparted_android.Operation.{Operation, deletion, changing, copying}
use gparted_android.Operation.Merge.{merge_operations, merge_changes}
use gparted_android.Pending.{
  Invalid, operations_affect_same_partition, merge_latest, merge_operation, refusal, add_operation,
  remove_operation, remove_last,
}

refused_merge :
    (tr : Gettext) (op candidate : Operation)
    → (merge_operations tr op candidate).1 ≡ false
    → (merge_operations tr op candidate).0 ≡ op
unfolding merge_operations
refused_merge tr (deletion d o) candidate h = refl
refused_merge tr (copying d o n s) candidate h = refl
refused_merge tr (changing c d o n) (deletion d' o') h = refl
refused_merge tr (changing c d o n) (copying d' o' n' s') h = refl
refused_merge tr (changing c d o n) (changing c' d' o' n') h =
    elim (Option-cases (merge_changes tr c n c' o' n')) [
      | inl e ↦ rw (e, merge_operations) refl
      | inr (m, e) ↦ cc (rw (e, merge_operations) at h)
    ]

module _ (tr : Gettext) (candidate : Operation) where
  abbrev affects : Operation → Bool
  affects op = operations_affect_same_partition op candidate

  -- One operation took the candidate in, and it is the last that affects the same partition.
  pub data Merged : List Operation → List Operation → Type 0 where
    here :
        {op : Operation} {later ops : List Operation}
        → affects op ≡ true
        → All (λ o. affects o ≡ false) later
        → (merge_operations tr op candidate).1 ≡ true
        → ops ≡ (merge_operations tr op candidate).0 ∷ later
        → Merged (op ∷ later) ops
    further :
        {op : Operation} {before after : List Operation}
        → Merged before after
        → Merged (op ∷ before) (op ∷ after)

  abbrev Ends : List Operation → List Operation → Bool → Type 0
  Ends ops ops' true = Merged ops ops'
  Ends ops ops' false = ops' ≡ ops

  abbrev Outcome : List Operation → Option (List Operation × Bool) → Type 0
  Outcome ops none = All (λ o. affects o ≡ false) ops
  Outcome ops (some r) = Ends ops r.0 r.1

  later_Ends :
      (op : Operation) (ops ops' : List Operation) (b : Bool)
      → Ends ops ops' b
      → Ends (op ∷ ops) (op ∷ ops') b
  later_Ends op ops ops' true h = further h
  later_Ends op ops ops' false h = ap (◌∷◌ op) h

  here_Ends :
      (op op' : Operation) (later : List Operation) (b : Bool)
      → affects op ≡ true
      → All (λ o. affects o ≡ false) later
      → merge_operations tr op candidate ≡ (op', b)
      → Ends (op ∷ later) (op' ∷ later) b
  here_Ends op op' later true a u e =
      here a u (ap (λ (r : Operation × Bool). r.1) e)
        (ap (λ (r : Operation × Bool). r.0 ∷ later) (sym e))
  here_Ends op op' later false a u e =
      ap (λ (o : Operation). o ∷ later)
        (sym (ap (λ (r : Operation × Bool). r.0) e)
          ∙ refused_merge tr op candidate (ap (λ (r : Operation × Bool). r.1) e))

  step_Outcome :
      (op : Operation) (later : List Operation) (r : Option (List Operation × Bool))
      → Outcome later r
      → Outcome (op ∷ later) (elim r [
        | some (later', merged) ↦ some (op ∷ later', merged)
        | none ↦
            let (op', merged) = merge_operations tr op candidate in
            if operations_affect_same_partition op candidate
            then some (op' ∷ later, merged)
            else none
      ])
  step_Outcome op later (some r) h = later_Ends op later r.0 r.1 h
  step_Outcome op later none h = elim (Bool-cases (operations_affect_same_partition op candidate)) [
    | inl a ↦ rw a (here_Ends op _ later _ a h refl)
    | inr a ↦ rw a (a, h)
  ]

  merge_latest-Outcome : (ops : List Operation) → Outcome ops (merge_latest tr candidate ops)
  unfolding merge_latest
  merge_latest-Outcome [] = tt
  merge_latest-Outcome (op ∷ later) = step_Outcome op later _ (merge_latest-Outcome later)

  merge_operation-Ends :
      (ops : List Operation)
      → Ends ops (merge_operation tr candidate ops).0 (merge_operation tr candidate ops).1
  unfolding merge_operation
  merge_operation-Ends ops = read (merge_latest tr candidate ops) (merge_latest-Outcome ops)
    where
      read :
          (r : Option (List Operation × Bool))
          → Outcome ops r
          → let q : List Operation × Bool = elim r [ none ↦ (ops, false) | some r ↦ r ] in
            Ends ops q.0 q.1
      read none h = refl
      read (some r) h = h

-- Either the operation is refused with the error, or merged into the last operation that affects the
-- same partition, or appended; nothing else in the list changes.
pub data Added (tr : Gettext) (device : Device) (op : Operation) (ops : List Operation)
    : List Operation × Option Invalid → Type 0 where
  refused :
      {r : List Operation × Option Invalid} (error : Invalid)
      → refusal device op ≡ some error
      → r ≡ (ops, some error)
      → Added tr device op ops r
  merged :
      {r : List Operation × Option Invalid} (ops' : List Operation)
      → refusal device op ≡ none
      → Merged tr op ops ops'
      → r ≡ (ops', none)
      → Added tr device op ops r
  appended :
      {r : List Operation × Option Invalid}
      → refusal device op ≡ none
      → r ≡ (ops ++ op ∷ [], none)
      → Added tr device op ops r

accepted :
    (tr : Gettext) (device : Device) (op : Operation) (ops : List Operation)
    → refusal device op ≡ none
    → (r : List Operation × Bool) → Ends tr op ops r.0 r.1
    → Added tr device op ops (if r.1 then (r.0, none) else (r.0 ++ op ∷ [], none))
accepted tr device op ops e (ops', true) m = merged ops' e m refl
accepted tr device op ops e (ops', false) m =
    appended e (ap (λ (l : List Operation). (l ++ op ∷ [], none)) m)

-- Adding an operation ends in one of three ways: it is refused with the error of `valid_partition`
-- and the list is as it was; it is merged into the last operation that affects the same partition,
-- which is the only entry that changes; or it is appended to the unchanged list.
pub add_operation-Added :
    (tr : Gettext) (device : Device) (op : Operation) (ops : List Operation)
    → Added tr device op ops (add_operation tr device (some op) ops)
unfolding add_operation
add_operation-Added tr device op ops = elim (Option-cases (refusal device op)) [
  | inr (error, e) ↦ refused error e (rw (e, add_operation) refl)
  | inl e ↦ rw (e, add_operation) (accepted tr device op ops e _ (merge_operation-Ends tr op ops))
]

drop_last_append :
    (ops : List Operation) (op : Operation)
    → remove_operation remove_last (pos 0) (ops ++ op ∷ []) ≡ ops
unfolding remove_operation
drop_last_append [] op = refl
drop_last_append (o ∷ []) op = refl
drop_last_append (o ∷ next ∷ ops) op = ap (◌∷◌ o) (drop_last_append (next ∷ ops) op)

unmerged :
    (tr : Gettext) (op : Operation) (ops : List Operation)
    → (merge_operation tr op ops).1 ≡ false
    → (merge_operation tr op ops).0 ≡ ops
unmerged tr op ops m =
    subst (Ends tr op ops (merge_operation tr op ops).0) m (merge_operation-Ends tr op ops)

-- Undoing takes back an operation that was accepted and not merged: the list is what it was before.
pub undo_last :
    (tr : Gettext) (device : Device) (op : Operation) (ops : List Operation)
    → refusal device op ≡ none
    → (merge_operation tr op ops).1 ≡ false
    → remove_operation remove_last (pos 0) (add_operation tr device (some op) ops).0 ≡ ops
unfolding add_operation
undo_last tr device op ops e m =
    rw (e, m, add_operation)
      (ap (λ (l : List Operation). remove_operation remove_last (pos 0) (l ++ op ∷ []))
          (unmerged tr op ops m)
        ∙ drop_last_append ops op)
