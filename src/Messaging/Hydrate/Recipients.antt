-- ===== src/Messaging/Hydrate/Recipients.antt =====
-- Who a message is encrypted for: the trusted devices of the active members, each of them once.
use y5fgb.Common.{
  eq_text_refl, if◌then◌else◌, has_text, any_of_find, sym, [], eq_text_iff, filter, arith, refl,
  ◌∷◌, if_cases, none, Bool, ◌≡◌, List, subst, any, IsDistinctBy, map, ◌∙◌, find, has_key, ◌||◌,
  not, ◌++◌, ap, Text,
}
use y5fgb.Messaging.Hydrate.{resolve_devices, resolve_recipients, resolve_members, is_trusted}
use y5fgb.Messaging.Model.{Device, Conversation, Member}
use y5fgb.Messaging.Crypto.{RecipientMaterial}

abbrev material : Device → RecipientMaterial
material d = record { recipient_device_id = d.id; public_key = d.public_device_material }

-- The devices that may read the conversation, with repetitions.
unfoldable pub active_devices : List Member → List Device
active_devices [] = []
active_devices (m ∷ ms) =
    if m.is_active then m.trusted_devices ++ active_devices ms else active_devices ms

unfoldable pub candidates : Conversation → List RecipientMaterial
unfolding active_devices
candidates conversation =
    map material
      (filter (λ (d : Device). is_trusted d.status) (active_devices conversation.members))

abbrev pub for_device : Text → RecipientMaterial → Bool
for_device = has_key (λ (r : RecipientMaterial). r.recipient_device_id)

resolve_devices-append :
    (seen : List Text) (ds es : List Device)
    → (resolve_devices seen (ds ++ es)).0
      ≡ (resolve_devices seen ds).0 ++ (resolve_devices (resolve_devices seen ds).1 es).0
unfolding resolve_devices
resolve_devices-append seen [] es = refl
resolve_devices-append seen (d ∷ ds) es =
    ground (arith, resolve_devices-append seen ds es, resolve_devices-append (d.id ∷ seen) ds es)

resolve_members-flat :
    (seen : List Text) (ms : List Member)
    → resolve_members seen ms ≡ (resolve_devices seen (active_devices ms)).0
unfolding resolve_members active_devices resolve_devices
resolve_members-flat seen [] = refl
resolve_members-flat seen (m ∷ ms) = ground (
  arith,
  resolve_members-flat seen ms,
  resolve_members-flat (resolve_devices seen m.trusted_devices).1 ms,
  resolve_devices-append seen m.trusted_devices (active_devices ms),
)

find-resolve_devices :
    (id : Text) (seen : List Text) (ds : List Device)
    → find (for_device id) (resolve_devices seen ds).0 ≡ (
        if has_text id seen
        then none
        else find (for_device id) (map material (filter (λ (d : Device). is_trusted d.status) ds)))
unfolding resolve_devices find filter has_text any
find-resolve_devices id seen [] = ground arith
find-resolve_devices id seen (d ∷ ds) = ground (
  arith,
  find-resolve_devices id seen ds,
  find-resolve_devices id (d.id ∷ seen) ds,
  eq_text_iff d.id id,
  eq_text_iff id d.id,
)

resolve_devices-IsDistinctBy :
    (seen : List Text) (ds : List Device)
    → IsDistinctBy (λ (r : RecipientMaterial). r.recipient_device_id) (resolve_devices seen ds).0
unfolding resolve_devices has_text any
resolve_devices-IsDistinctBy seen [] = tt
resolve_devices-IsDistinctBy seen (d ∷ ds) =
    if_cases
      (λ (p : List RecipientMaterial × List Text).
        IsDistinctBy (λ (r : RecipientMaterial). r.recipient_device_id) p.0)
      (not (is_trusted d.status) || has_text d.id seen) (λ _. resolve_devices-IsDistinctBy seen ds)
      (λ _. (
        any_of_find (for_device d.id) (resolve_devices (d.id ∷ seen) ds).0
            (find-resolve_devices d.id (d.id ∷ seen) ds ∙ rw (eq_text_refl d.id) refl),
        resolve_devices-IsDistinctBy (d.id ∷ seen) ds,
      ))

-- A message is encrypted for exactly the trusted devices of the active members of its conversation,
-- each of them once and under the public key that its first entry holds.
pub resolve_recipients-candidates :
    (conversation : Conversation) (id : Text)
    → (find (for_device id) (resolve_recipients conversation)
        ≡ find (for_device id) (candidates conversation))
      × IsDistinctBy
          (λ (r : RecipientMaterial). r.recipient_device_id)
          (resolve_recipients conversation)
unfolding resolve_recipients candidates has_text any
resolve_recipients-candidates conversation id =
    let flat = resolve_members-flat [] conversation.members in
    (
      ap (find (for_device id)) flat
          ∙ find-resolve_devices id [] (active_devices conversation.members),
      subst (IsDistinctBy (λ (r : RecipientMaterial). r.recipient_device_id)) (sym flat)
          (resolve_devices-IsDistinctBy [] (active_devices conversation.members)),
    )
