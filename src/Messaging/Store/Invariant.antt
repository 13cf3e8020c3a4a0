-- ===== src/Messaging/Store/Invariant.antt =====
-- The invariant of `useMessagingStore`, and that every action keeps it.
use y5fgb.Messaging.Model.{Conversation, LocalMessage}
use y5fgb.Messaging.Merge.{
  IsComplete, get_message_identity_key, ensure_message_defaults, is_same_message, merge_message,
}
use y5fgb.Messaging.Dedupe.{comes_after, dedupe_and_sort_messages}
use y5fgb.Messaging.Dedupe.Content.{key, dedupe_and_sort_messages-IsDistinctBy}
use y5fgb.Messaging.Dedupe.Order.{dedupe_and_sort_messages-IsSortedBy}
use y5fgb.Messaging.Dedupe.Idempotent.{dedupe_and_sort_messages-IsComplete}
use y5fgb.Messaging.Store.{
  MessagingState, upserted, put_messages, LifecyclePatch, patch_message, messages_of,
}
use y5fgb.Messaging.Store.Actions.{Action}
use y5fgb.Common.{
  ◌∷◌, IsSortedBy, All, Text, [], Bool, IsDistinctBy, List, Option-cases, filter-IsDistinctBy,
  filter-IsSortedBy, All-filter, filter, inr, ◌++◌, update_first, inl, arith, Bool-cases, refl,
  eq_text, some, or_default, lookup, Dict, insert, ◌≡◌, update_first-IsSortedBy,
  update_first-IsDistinctBy, All-update_first,
}

-- The messages of one conversation: in order, with distinct identity keys, and complete.
pub record IsTidy (items : List LocalMessage) : Type 0 where
  pub sorted : IsSortedBy comes_after items
  pub distinct : IsDistinctBy key items
  pub complete : All IsComplete items

abbrev pub conversation_id : Conversation → Text
conversation_id c = c.id

pub record IsValid (state : MessagingState) : Type 0 where
  pub tidy : All (λ e. IsTidy e.1) state.messages_by_conversation
  pub conversations : IsDistinctBy conversation_id state.conversations

-- The server sends each conversation once; no other action needs a condition.
abbrev pub IsAllowed : Action → Type 0
IsAllowed (Action.set_conversations cs) = IsDistinctBy conversation_id cs
IsAllowed _ = Unit {0}

pub dedupe_and_sort_messages-IsTidy :
    (now : Text) (items : List LocalMessage) → IsTidy (dedupe_and_sort_messages now items)
dedupe_and_sort_messages-IsTidy now items = record {
  sorted = dedupe_and_sort_messages-IsSortedBy now items;
  distinct = dedupe_and_sort_messages-IsDistinctBy now items;
  complete = dedupe_and_sort_messages-IsComplete now items;
}

pub upserted-IsTidy :
    (now : Text) (m : LocalMessage) (items : List LocalMessage) → IsTidy (upserted now m items)
unfolding upserted
upserted-IsTidy now m items =
    let n = ensure_message_defaults now m in
    elim (Option-cases (update_first (is_same_message n) (λ old. merge_message now old n) items)) [
      | inl e ↦ rw (e, upserted) (dedupe_and_sort_messages-IsTidy now (items ++ n ∷ []))
      | inr (next, e) ↦ rw (e, upserted) (dedupe_and_sort_messages-IsTidy now next)
    ]

pub filter-IsTidy :
    (p : LocalMessage → Bool) (items : List LocalMessage) → IsTidy items → IsTidy (filter p items)
filter-IsTidy p items t = record {
  sorted = filter-IsSortedBy comes_after p items t.sorted;
  distinct = filter-IsDistinctBy key p items t.distinct;
  complete = All-filter IsComplete p items t.complete;
}

comes_after-patch_left :
    (now : Text) (patch : LifecyclePatch) (x y : LocalMessage)
    → comes_after (patch_message now patch x) y ≡ comes_after x y
unfolding comes_after patch_message
comes_after-patch_left now patch x y = refl

comes_after-patch_right :
    (now : Text) (patch : LifecyclePatch) (x y : LocalMessage)
    → comes_after y (patch_message now patch x) ≡ comes_after y x
unfolding comes_after patch_message
comes_after-patch_right now patch x y = refl

key-patch_message :
    (now : Text) (patch : LifecyclePatch) (x : LocalMessage)
    → key (patch_message now patch x) ≡ key x
unfolding patch_message get_message_identity_key
key-patch_message now patch x = refl

patch_message-IsComplete :
    (now : Text) (patch : LifecyclePatch) (x : LocalMessage)
    → IsComplete (patch_message now patch x)
unfolding patch_message
patch_message-IsComplete now patch x = (refl, refl)

pub patched-IsTidy :
    (now : Text) (patch : LifecyclePatch) (p : LocalMessage → Bool) (items next : List LocalMessage)
    → update_first p (patch_message now patch) items ≡ some next
    → IsTidy items
    → IsTidy next
patched-IsTidy now patch p items next e t =
    let f = patch_message now patch in
    record {
      sorted =
          update_first-IsSortedBy p f comes_after items next e (comes_after-patch_left now patch)
            (comes_after-patch_right now patch) t.sorted;
      distinct =
          update_first-IsDistinctBy p f key items next e (λ x _. key-patch_message now patch x)
            t.distinct;
      complete =
          All-update_first p f IsComplete items next e
            (λ x _ _. patch_message-IsComplete now patch x) t.complete;
    }

abbrev AreTidy : Dict (List LocalMessage) → Type 0
AreTidy = All (λ e. IsTidy e.1)

insert-AreTidy :
    (k : Text) (items : List LocalMessage) (m : Dict (List LocalMessage))
    → IsTidy items
    → AreTidy m
    → AreTidy (insert k items m)
unfolding insert
insert-AreTidy k items [] t h = (t, tt)
insert-AreTidy k items ((j, old) ∷ m) t (o, h) = ground (arith, insert-AreTidy k items m t h)

lookup-AreTidy :
    (k : Text) (m : Dict (List LocalMessage)) → AreTidy m → IsTidy (or_default (lookup k m) [])
unfolding lookup
lookup-AreTidy k [] h = record { sorted = tt; distinct = tt; complete = tt }
lookup-AreTidy k ((j, old) ∷ m) (o, h) = elim (Bool-cases (eq_text j k)) [
  | inl e ↦ rw e o
  | inr e ↦ rw e (lookup-AreTidy k m h)
]

-- In a valid state the messages of every conversation are tidy.
pub messages_of-IsTidy : (s : MessagingState) (c : Text) → IsValid s → IsTidy (messages_of s c)
unfolding messages_of
messages_of-IsTidy s c v = lookup-AreTidy c s.messages_by_conversation v.tidy

pub put_messages-IsValid :
    (c : Text) (items : List LocalMessage) (s : MessagingState)
    → IsTidy items
    → IsValid s
    → IsValid (put_messages c items s)
unfolding put_messages
put_messages-IsValid c items s t v = record {
  tidy = insert-AreTidy c items s.messages_by_conversation t v.tidy;
  conversations = v.conversations;
}
