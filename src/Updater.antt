-- ===== src/Updater.antt =====
-- `useUpdaterStore` of apps/client-desktop/src/state/updaterStore.ts: the state and one function for
-- each action.
pub mod Progress
mod Tests
use y5fgb.Common.{
  eq_text, ◌∷◌, Option, ◌&&◌, none, is_empty, Number, min, not, ℕ, floor_at_zero, List, Text,
  or_default, is_finite, [], some, if◌then◌else◌, true, coalesce, false, Bool,
}

pub data UpdateChannel : Type 0 where
  stable beta : UpdateChannel

pub data UpdaterStatus : Type 0 where
  idle unsupported checking up_to_date available downloading downloaded error : UpdaterStatus

pub record UpdaterState : Type 0 where
  pub supported : Bool
  pub status : UpdaterStatus
  pub channel : UpdateChannel
  pub current_version : Option Text
  pub available_version : Option Text
  pub release_notes : Option Text
  pub published_at : Option Text
  pub progress_percent : ℕ
  pub last_checked_at : Option Text
  pub error_message : Option Text
  pub banner_visible : Bool
  pub dismissed_version : Option Text

abbrev pub initial_updater : UpdaterState
initial_updater = record {
  supported = true;
  status = UpdaterStatus.idle;
  channel = UpdateChannel.stable;
  current_version = none;
  available_version = none;
  release_notes = none;
  published_at = none;
  progress_percent = 0;
  last_checked_at = none;
  error_message = none;
  banner_visible = false;
  dismissed_version = none;
}

-- The argument of `setAvailableUpdate`.
pub record AvailableUpdate : Type 0 where
  pub version : Text
  pub notes : Option Text
  pub published_at : Option Text
  pub show_banner : Bool

-- `state.dismissedVersion !== version`
unfoldable pub is_undismissed : Option Text → Text → Bool
is_undismissed none version = true
is_undismissed (some d) version = not (eq_text d version)

unfoldable pub set_available_update : AvailableUpdate → UpdaterState → UpdaterState
unfolding is_undismissed
set_available_update update state = record state {
  status = UpdaterStatus.available;
  available_version = some update.version;
  release_notes = update.notes;
  published_at = update.published_at;
  error_message = none;
  progress_percent = 0;
  banner_visible = update.show_banner && is_undismissed state.dismissed_version update.version;
}

unfoldable pub clear_available_update : UpdaterState → UpdaterState
clear_available_update state = record state {
  available_version = none;
  release_notes = none;
  published_at = none;
  progress_percent = 0;
  banner_visible = false;
}

unfoldable pub set_progress_percent : Number → UpdaterState → UpdaterState
set_progress_percent value state = record state {
  progress_percent = if is_finite value then min 100 (floor_at_zero value) else 0;
}

-- An empty message is no error.
unfoldable pub set_error : Option Text → UpdaterState → UpdaterState
set_error value state = record state {
  status = if is_empty (or_default value []) then state.status else UpdaterStatus.error;
  error_message = value;
}

unfoldable pub dismiss_current_version : UpdaterState → UpdaterState
dismiss_current_version state = record state {
  banner_visible = false;
  dismissed_version = coalesce state.available_version state.dismissed_version;
}

-- The actions of the store; those that only set a field are written out in `apply_update`.
pub data UpdaterAction : Type 0 where
  set_supported : Bool → UpdaterAction
  set_status : UpdaterStatus → UpdaterAction
  set_channel : UpdateChannel → UpdaterAction
  set_current_version : Option Text → UpdaterAction
  available_update : AvailableUpdate → UpdaterAction
  clear_update : UpdaterAction
  progress : Number → UpdaterAction
  failed : Option Text → UpdaterAction
  set_banner_visible : Bool → UpdaterAction
  dismiss : UpdaterAction
  mark_checked_now : (now : Text) → UpdaterAction

unfoldable pub apply_update : UpdaterAction → UpdaterState → UpdaterState
unfolding set_available_update clear_available_update set_progress_percent set_error
    dismiss_current_version
apply_update (UpdaterAction.set_supported value) state = record state { supported = value }
apply_update (UpdaterAction.set_status value) state = record state { status = value }
apply_update (UpdaterAction.set_channel value) state = record state { channel = value }
apply_update (UpdaterAction.set_current_version value) state = record state {
  current_version = value;
}
apply_update (UpdaterAction.available_update update) state = set_available_update update state
apply_update UpdaterAction.clear_update state = clear_available_update state
apply_update (UpdaterAction.progress value) state = set_progress_percent value state
apply_update (UpdaterAction.failed value) state = set_error value state
apply_update (UpdaterAction.set_banner_visible value) state = record state {
  banner_visible = value;
}
apply_update UpdaterAction.dismiss state = dismiss_current_version state
apply_update (UpdaterAction.mark_checked_now now) state = record state {
  last_checked_at = some now;
}

unfoldable pub run_updates : List UpdaterAction → UpdaterState → UpdaterState
unfolding apply_update
run_updates [] state = state
run_updates (a ∷ as') state = run_updates as' (apply_update a state)
