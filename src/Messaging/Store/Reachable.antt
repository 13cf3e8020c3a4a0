-- ===== src/Messaging/Store/Reachable.antt =====
-- Every state that the actions of `useMessagingStore` reach is valid.
use y5fgb.Messaging.Store
use y5fgb.Messaging.Model.{Conversation, LocalMessage}
use y5fgb.Messaging.Merge.{is_same_client_reference}
use y5fgb.Messaging.Store.{
  MessagingState, LifecyclePatch, initial_state, messages_of, put_messages, patch_message, upserted,
}
use y5fgb.Messaging.Store.Actions.{Action, apply, run}
use y5fgb.Messaging.Store.Invariant.{
  IsValid, IsAllowed, conversation_id, dedupe_and_sort_messages-IsTidy, upserted-IsTidy,
  filter-IsTidy, patched-IsTidy, messages_of-IsTidy, put_messages-IsValid,
}
use y5fgb.Common.{
  update_first, Option-cases, sym, All, any_of_update_first, eq_text_iff, inl, inr, [], Text, ◌∷◌,
  eq_text, List, update_first-IsDistinctBy,
}

upsert_conversation-IsValid :
    (c : Conversation) (s : MessagingState) → IsValid s → IsValid (Store.upsert_conversation c s)
unfolding Store.upsert_conversation
upsert_conversation-IsValid c s v =
    let same = λ (d : Conversation). eq_text d.id c.id in
    elim (Option-cases (update_first same (λ _. c) s.conversations)) [
      | inl e ↦
          rw (e, Store.upsert_conversation)
            (record {
              tidy = v.tidy;
              conversations =
                  (any_of_update_first same (λ _. c) s.conversations e, v.conversations);
            })
      | inr (next, e) ↦
          rw (e, Store.upsert_conversation)
            (record {
              tidy = v.tidy;
              conversations =
                  update_first-IsDistinctBy same (λ _. c) conversation_id s.conversations next e
                    (λ d hit. sym ((eq_text_iff d.id c.id).0 hit)) v.conversations;
            })
    ]

update_message_lifecycle-IsValid :
    (now c d m : Text) (p : LifecyclePatch) (s : MessagingState)
    → IsValid s
    → IsValid (Store.update_message_lifecycle now c d m p s)
unfolding Store.update_message_lifecycle
update_message_lifecycle-IsValid now c d m p s v =
    let same = λ (item : LocalMessage). is_same_client_reference item d m in
    elim (Option-cases (update_first same (patch_message now p) (messages_of s c))) [
      | inl e ↦ rw (e, Store.update_message_lifecycle) v
      | inr (next, e) ↦
          rw (e, Store.update_message_lifecycle)
            (put_messages-IsValid c next s
              (patched-IsTidy now p same (messages_of s c) next e (messages_of-IsTidy s c v)) v)
    ]

-- One action keeps a valid state valid.
pub apply-IsValid :
    (a : Action) (s : MessagingState) → IsAllowed a → IsValid s → IsValid (apply a s)
unfolding apply Store.set_initialized Store.set_loading Store.set_conversations Store.set_messages
    Store.upsert_message Store.remove_message_by_client_reference Store.set_active_conversation
    Store.mark_conversation_read Store.set_outbox Store.set_transport_state Store.reset
apply-IsValid (Action.set_initialized b) s a v = record {
  tidy = v.tidy;
  conversations = v.conversations;
}
apply-IsValid (Action.set_loading b) s a v = record {
  tidy = v.tidy;
  conversations = v.conversations;
}
apply-IsValid (Action.set_conversations cs) s a v = record { tidy = v.tidy; conversations = a }
apply-IsValid (Action.upsert_conversation c) s a v = upsert_conversation-IsValid c s v
apply-IsValid (Action.set_messages now c ms) s a v =
    put_messages-IsValid c _ s (dedupe_and_sort_messages-IsTidy now ms) v
apply-IsValid (Action.upsert_message now c m) s a v =
    put_messages-IsValid c _ s (upserted-IsTidy now m (messages_of s c)) v
apply-IsValid (Action.update_message_lifecycle now c d m p) s a v =
    update_message_lifecycle-IsValid now c d m p s v
apply-IsValid (Action.remove_message_by_client_reference c d m) s a v =
    put_messages-IsValid c _ s (filter-IsTidy _ _ (messages_of-IsTidy s c v)) v
apply-IsValid (Action.set_active_conversation c) s a v = record {
  tidy = v.tidy;
  conversations = v.conversations;
}
apply-IsValid (Action.mark_conversation_read c n) s a v = record {
  tidy = v.tidy;
  conversations = v.conversations;
}
apply-IsValid (Action.set_outbox items) s a v = record {
  tidy = v.tidy;
  conversations = v.conversations;
}
apply-IsValid (Action.set_transport_state now p) s a v = record {
  tidy = v.tidy;
  conversations = v.conversations;
}
apply-IsValid Action.reset s a v = record { tidy = tt; conversations = tt }

run-IsValid_from :
    (as' : List Action) (s : MessagingState) → All IsAllowed as' → IsValid s → IsValid (run as' s)
unfolding run
run-IsValid_from [] s h v = v
run-IsValid_from (a ∷ as') s (k, h) v = run-IsValid_from as' (apply a s) h (apply-IsValid a s k v)

-- After any sequence of actions from the initial state in which `setConversations` is given
-- conversations with distinct ids, the conversations have distinct ids, and the messages of every
-- conversation are sorted, have distinct identity keys, and each have a lifecycle and a time.
pub run-IsValid :
    (actions : List Action) → All IsAllowed actions → IsValid (run actions initial_state)
run-IsValid actions h =
    run-IsValid_from actions initial_state h (record { tidy = tt; conversations = tt })
