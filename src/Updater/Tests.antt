-- ===== src/Updater/Tests.antt =====
-- Instances of the theorems on the updater store.
use y5fgb.Common.{
  none, true, false, some, List, ◌∷◌, refl, ◌≡◌, codes, arith, integer, [], ◌≤◌, All,
}
use y5fgb.Updater.{
  UpdaterAction, UpdaterState, run_updates, AvailableUpdate, set_available_update, initial_updater,
  dismiss_current_version,
}
use y5fgb.Updater.Progress.{run_updates-progress, dismissed_version-hidden, IsKept}

abbrev offer : AvailableUpdate
offer = record { version = codes "1.2.0"; notes = none; published_at = none; show_banner = true }

abbrev offered : UpdaterState
offered = record initial_updater { available_version = some (codes "1.2.0"); banner_visible = true }

abbrev actions : List UpdaterAction
actions = UpdaterAction.progress (integer 250) ∷ UpdaterAction.clear_update ∷ []

run_updates-progress_example : (run_updates actions offered).progress_percent ≤ 100
run_updates-progress_example = run_updates-progress actions offered (omega arith)

actions-IsKept : All IsKept actions
actions-IsKept = (tt, (tt, tt))

dismissed_version-hidden_example :
    (set_available_update offer
      (run_updates actions (dismiss_current_version offered))).banner_visible
    ≡ false
dismissed_version-hidden_example =
    dismissed_version-hidden actions offered offer refl actions-IsKept
