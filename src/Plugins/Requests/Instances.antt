-- ===== src/Plugins/Requests/Instances.antt =====
-- The active instances over the requests: the invariant that the bridge keeps.
use y5fgb.Plugins.Requests.Effect.{Effect, IsValidInstance}
use y5fgb.Common.{All-insert, inl, Text, ◌≡◌, subst, refl, inr, All, sym}
use y5fgb.Plugins.Bridge.{Platform, BridgeRequest}
use y5fgb.Plugins.Host.{Host, put_instance, Instance}
use y5fgb.Plugins.Requests.{process_bridge_request}
use y5fgb.Plugins.Requests.Steps.{process_bridge_request-Effect}
use y5fgb.Plugins.Requests.Isolation.{sync_put_instance}

-- Every active instance is valid and stands under the id of its manifest.
abbrev pub IsValidHost : Host → Type 0
IsValidHost host = All (λ e. (e.1.manifest.id ≡ e.0) × IsValidInstance e.1) host.instances

pub put_instance-IsValidHost :
    (next : Instance) (host : Host)
    → IsValidInstance next
    → IsValidHost host
    → IsValidHost (put_instance next host)
unfolding put_instance
put_instance-IsValidHost next host valid h =
    All-insert (λ e. (e.1.manifest.id ≡ e.0) × IsValidInstance e.1) next.manifest.id next
      host.instances (refl, valid) h

Effect-IsValidHost :
    (instance : Instance) (host host' : Host)
    → Effect instance host host'
    → IsValidHost host
    → IsValidHost host'
unfolding put_instance
Effect-IsValidHost instance host host' Effect.unchanged h = h
Effect-IsValidHost instance host host' (Effect.contributed now next n) h =
    subst IsValidHost (sym (sync_put_instance instance host now next n))
      (put_instance-IsValidHost next host n.is_valid h)
Effect-IsValidHost instance host host' (Effect.shown now next panel n v) h =
    put_instance-IsValidHost next host n.is_valid h
Effect-IsValidHost instance host host' (Effect.followed next n) h =
    put_instance-IsValidHost next host n.is_valid h
Effect-IsValidHost instance host host' (Effect.stored own value _) h = h
Effect-IsValidHost instance host host' (Effect.deleted own) h = h
Effect-IsValidHost instance host host' (Effect.noticed fresh now message _) h = h

-- A bridge request of a valid instance keeps every active instance valid: contributions under the
-- plugin's own id and under distinct ids of the permitted form, panel contents of at most 5000 code
-- units, and subscriptions only to allowed events that the manifest declares.
pub process_bridge_request-IsValidHost :
    (platform : Platform) (fresh now : Text) (instance : Instance) (request : BridgeRequest)
    (host : Host)
    → IsValidInstance instance
    → IsValidHost host
    → IsValidHost (process_bridge_request platform fresh now instance request host).0
process_bridge_request-IsValidHost platform fresh now instance request host valid h =
    elim (process_bridge_request-Effect platform fresh now instance request host valid) [
      | inl (code, message, e) ↦ subst (λ a. IsValidHost a.0) (sym e) h
      | inr (_, _, _, effect) ↦ Effect-IsValidHost instance host _ effect h
    ]
