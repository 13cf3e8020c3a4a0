-- ===== src/Messaging/SyncLoop.antt =====
-- `requestSync` of apps/client-desktop/src/services/messaging/runtime.ts, as a machine: requests come
-- in while a poll is under way, and the loop polls again as long as a hint is queued. The runtime is not
-- stopped in between.
pub mod Covered
use y5fgb.Common.{
  some, if◌then◌else◌, true, Option, ◌∷◌, Number, floor_at_zero, max, ℕ, List, false, Bool, none,
  not, is_finite, [],
}

-- `current` is the hint of the poll that is under way, `polled` those of the polls so far, the last
-- one first.
pub record SyncLoop : Type 0 where
  pub is_running : Bool
  pub queued_hint : Option ℕ
  pub polled : List (Option ℕ)

abbrev pub idle_loop : SyncLoop
idle_loop = record { is_running = false; queued_hint = none; polled = [] }

-- `normalizedHint`
unfoldable pub normalized_hint : Option Number → Option ℕ
normalized_hint none = none
normalized_hint (some n) = if is_finite n then some (floor_at_zero n) else none

unfoldable pub queue_hint : Option ℕ → Option ℕ → Option ℕ
queue_hint queued none = queued
queue_hint none (some h) = some h
queue_hint (some q) (some h) = some (max q h)

-- The head of the loop's body: take the queued hint and poll with it.
unfoldable pub begin_poll : SyncLoop → SyncLoop
begin_poll s = record { is_running = true; queued_hint = none; polled = s.queued_hint ∷ s.polled }

-- What happens to the loop: a call of `requestSync`, and the end of the poll under way.
pub data LoopEvent : Type 0 where
  requested : Option Number → LoopEvent
  poll_done poll_failed : LoopEvent

unfoldable pub loop_step : SyncLoop → LoopEvent → SyncLoop
unfolding begin_poll queue_hint normalized_hint
loop_step s (requested cursor_hint) =
    let queued = record s {
      queued_hint = queue_hint s.queued_hint (normalized_hint cursor_hint);
    } in
    if s.is_running then queued else begin_poll queued
loop_step s poll_done =
    if not s.is_running
    then s
    else elim s.queued_hint [ none ↦ record s { is_running = false } | some hint ↦ begin_poll s ]
loop_step s poll_failed = record s { is_running = false }

unfoldable pub run_loop : SyncLoop → List LoopEvent → SyncLoop
unfolding loop_step
run_loop s [] = s
run_loop s (e ∷ es) = run_loop (loop_step s e) es
