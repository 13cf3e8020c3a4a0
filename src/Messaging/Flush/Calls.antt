-- ===== src/Messaging/Flush/Calls.antt =====
-- Calls of `flushOutbox` of apps/client-desktop/src/services/messaging/runtime.ts while a round of it is
-- under way.
-- What the loop does at the end of a round.
use y5fgb.Messaging.Flush.{
  flush_step, Flusher, Round, thrown, finished, called, round_ended, Environment, flush_round,
  Client,
}
use y5fgb.Common.{◌∙◌, false, not, true, ap, if◌then◌else◌, ◌≡◌, subst, sym, refl}
use y5fgb.Messaging.Flush.Outbox.{client_of}

abbrev resumed : Flusher → Round → Flusher
resumed s (thrown client) = record s { client = client; is_running = false }
resumed s (finished client) =
    if s.is_requested
    then record s { client = client; is_requested = false }
    else record s { client = client; is_running = false }

flush_step-round_ended :
    (s : Flusher) (env : Environment)
    → s.is_running ≡ true
    → flush_step s (round_ended env) ≡ resumed s (flush_round env s.client)
unfolding flush_step
flush_step-round_ended s env running =
    ap (λ b. if not b then s else resumed s (flush_round env s.client)) running

resting :
    (s : Flusher) (r : Round)
    → s.is_requested ≡ false
    → ((resumed s r).client ≡ client_of r) × ((resumed s r).is_running ≡ false)
unfolding client_of
resting s (thrown client) quiet = (refl, refl)
resting s (finished client) quiet = rw quiet (refl, refl)

-- A call that comes in while a round is under way gets a round of its own, on what that round left,
-- where it ends well; then the loop rests.
flush_step-called :
    (s : Flusher) (env env' : Environment) (next : Client)
    → s.is_running ≡ true
    → flush_round env s.client ≡ finished next
    → let after =
        flush_step (flush_step (flush_step s called) (round_ended env)) (round_ended env') in
      (after.client ≡ client_of (flush_round env' next)) × (after.is_running ≡ false)
unfolding flush_step client_of
flush_step-called s env env' next running ended =
    let again : Flusher = record s { client = next; is_requested = false } in
    let asked : flush_step s called ≡ record s { is_requested = true } =
      ap
        (λ b.
          if b
          then record s { is_requested = true }
          else record s { is_running = true; is_requested = false })
        running in
    let first : flush_step (record s { is_requested = true }) (round_ended env) ≡ again =
      flush_step-round_ended (record s { is_requested = true }) env running
      ∙ ap (resumed (record s { is_requested = true })) ended in
    subst
      (λ (t : Flusher).
        let after = flush_step t (round_ended env') in
        (after.client ≡ client_of (flush_round env' next)) × (after.is_running ≡ false))
      (sym (ap (λ t. flush_step t (round_ended env)) asked ∙ first))
      (subst
        (λ (t : Flusher). (t.client ≡ client_of (flush_round env' next)) × (t.is_running ≡ false))
        (sym (flush_step-round_ended again env' running))
        (resting again (flush_round env' next) refl))
