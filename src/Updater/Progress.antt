-- ===== src/Updater/Progress.antt =====
-- What holds of the updater store over its actions.
use y5fgb.Common.{
  All, ◌≡◌, refl, ◌∷◌, arith, ◌∙◌, [], List, ◌≤◌, eq_text_refl, coalesce, some, false, ap,
}
use y5fgb.Updater.{
  apply_update, run_updates, UpdaterAction, set_available_update, UpdaterState,
  clear_available_update, set_progress_percent, set_error, dismiss_current_version, is_undismissed,
  AvailableUpdate,
}

apply_update-progress :
    (a : UpdaterAction) (s : UpdaterState)
    → s.progress_percent ≤ 100
    → (apply_update a s).progress_percent ≤ 100
unfolding apply_update set_available_update clear_available_update set_progress_percent set_error
    dismiss_current_version
apply_update-progress (UpdaterAction.available_update update) s h = omega arith
apply_update-progress UpdaterAction.clear_update s h = omega arith
apply_update-progress (UpdaterAction.progress value) s h = ground arith
apply_update-progress _ s h = h

-- The progress stays between 0 and 100 over any actions, whatever number the download reports.
pub run_updates-progress :
    (as' : List UpdaterAction) (s : UpdaterState)
    → s.progress_percent ≤ 100
    → (run_updates as' s).progress_percent ≤ 100
unfolding run_updates
run_updates-progress [] s h = h
run_updates-progress (a ∷ as') s h =
    run_updates-progress as' (apply_update a s) (apply_update-progress a s h)

-- What the actions other than a dismissal leave of the dismissed version.
abbrev pub IsKept : UpdaterAction → Type 0
IsKept UpdaterAction.dismiss = ⊥
IsKept _ = Unit

apply_update-dismissed :
    (a : UpdaterAction) (s : UpdaterState)
    → IsKept a
    → (apply_update a s).dismissed_version ≡ s.dismissed_version
unfolding apply_update set_available_update clear_available_update set_progress_percent set_error
apply_update-dismissed UpdaterAction.dismiss s k = absurd k
apply_update-dismissed _ s k = refl

run_updates-dismissed :
    (as' : List UpdaterAction) (s : UpdaterState)
    → All IsKept as'
    → (run_updates as' s).dismissed_version ≡ s.dismissed_version
unfolding run_updates
run_updates-dismissed [] s k = refl
run_updates-dismissed (a ∷ as') s (k, ks) =
    run_updates-dismissed as' (apply_update a s) ks ∙ apply_update-dismissed a s k

-- Once the user dismisses the offered version, an offer of that version does not show the banner,
-- after any actions without another dismissal.
pub dismissed_version-hidden :
    (as' : List UpdaterAction) (s : UpdaterState) (update : AvailableUpdate)
    → s.available_version ≡ some update.version
    → All IsKept as'
    → (set_available_update update (run_updates as' (dismiss_current_version s))).banner_visible
      ≡ false
unfolding set_available_update is_undismissed dismiss_current_version
dismissed_version-hidden as' s update offered k =
    let kept : (run_updates as' (dismiss_current_version s)).dismissed_version
        ≡ some update.version =
      run_updates-dismissed as' (dismiss_current_version s) k
      ∙ ap (λ o. coalesce o s.dismissed_version) offered in
    rw (kept, eq_text_refl update.version) (ground arith)
