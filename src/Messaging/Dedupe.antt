-- ===== src/Messaging/Dedupe.antt =====
-- `dedupeAndSortMessages` of apps/client-desktop/src/state/messagingStore.ts: one message for each
-- identity key, in the order of the comparator.
pub mod Order
pub mod Content
pub mod Idempotent
use y5fgb.Common.{
  ◌≡◌, refl, Bool, true, false, Option, none, some, List, [], ◌∷◌, map, Text, Dict, lookup, insert,
  lt_text, ltb, if◌then◌else◌, sort_by,
}
use y5fgb.Messaging.Model.{LocalMessage}
use y5fgb.Messaging.Merge.{ensure_message_defaults, get_message_identity_key, merge_message}

-- One round of the loop over `indexed`.
unfoldable pub index_step : Text → Dict LocalMessage → LocalMessage → Dict LocalMessage
index_step now indexed item =
    let normalized = ensure_message_defaults now item in
    let key = get_message_identity_key normalized in
    elim (lookup key indexed) [
      | none ↦ insert key normalized indexed
      | some existing ↦ insert key (merge_message now existing normalized) indexed
    ]

unfoldable pub index_messages : Text → Dict LocalMessage → List LocalMessage → Dict LocalMessage
unfolding index_step
index_messages now indexed [] = indexed
index_messages now indexed (item ∷ items) = index_messages now (index_step now indexed item) items

-- The sign of a comparator's result: negative, zero or positive.
pub data Sign : Type 0 where
  negative neutral positive : Sign

unfoldable pub compare_messages : LocalMessage → LocalMessage → Sign
compare_messages left right =
    let l = left.envelope in
    let r = right.envelope in
    if ltb l.server_sequence r.server_sequence
    then negative
    else if ltb r.server_sequence l.server_sequence
    then positive
    else if lt_text l.created_at r.created_at
    then negative
    else if lt_text r.created_at l.created_at
    then positive
    else if lt_text l.id r.id
    then negative
    else if lt_text r.id l.id
    then positive
    else neutral

unfoldable pub comes_after : LocalMessage → LocalMessage → Bool
unfolding compare_messages
comes_after left right = elim (compare_messages left right) [ positive ↦ true | _ ↦ false ]

abbrev pub values {ℓ} : {V : Type ℓ} → Dict V → List V
values = map (λ e. e.1)

unfoldable pub dedupe_and_sort_messages : Text → List LocalMessage → List LocalMessage
unfolding index_messages comes_after
dedupe_and_sort_messages now items = sort_by comes_after (values (index_messages now [] items))
