-- ===== src/Tests/Details.antt =====
-- Runs of the tree of details.
use gparted_android.Prelude.{refl, false, [], ◌∷◌}
use gparted_android.Prelude.Int.{pos}
use gparted_android.Prelude.Text.{codes}
use gparted_android.OperationDetail.{
  State, Detail, no_child, last, new_detail, status_execute, status_none, finishing, on_last_child,
  run, child_path,
}
use gparted_android.OperationDetail.Order.{IsInOrder, Keeps}
use gparted_android.OperationDetail.Calls.{run-IsInOrder}

abbrev top : State
top = new_detail (codes "resize") status_execute (pos 100)

abbrev step : State
step = record (new_detail (codes "check") status_none (pos 100)) {
  treepath = child_path top.treepath 0;
}

abbrev details : Detail
details = (top, last no_child step no_child)

-- The last step fails, with a captured message.
run-IsInOrder_example :
    IsInOrder (run (codes "late") (pos 105) (on_last_child (finishing false (step ∷ []))) details)
    × Keeps top
        (run (codes "late") (pos 105) (on_last_child (finishing false (step ∷ []))) details).0
unfolding new_detail
run-IsInOrder_example =
    run-IsInOrder (codes "late") (pos 105) (on_last_child (finishing false (step ∷ []))) details
      (refl, refl, tt, tt)
