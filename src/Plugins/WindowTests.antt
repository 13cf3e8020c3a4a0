-- ===== src/Plugins/WindowTests.antt =====
-- Instances of the theorems on window messages, events and the end of a plugin.
use y5fgb.Plugins.Tests.{manifest, host, notes, platform, now, request, notes_valid}
use y5fgb.Common.{
  refl, lookup, has_text, ◌∷◌, some, false, sym, filter, find, subst, some-injective, map, none,
  ◌≡◌, ◌∙◌, codes, [], ◌++◌, eq_text, Dict,
}
use y5fgb.Plugins.Window.{
  is_token, find_instance_for_message, WindowEvent, find_by_window, handle_window_message,
  MessageKind,
}
use y5fgb.Plugins.Requests.Instances.{IsValidHost}
use y5fgb.Plugins.Window.Tokens.{IsQuiet, handle_window_message-IsQuiet}
use y5fgb.Plugins.Runtime.Disabling.{IsDown, disable-IsDown, fail_plugin-IsDown}
use y5fgb.Plugins.Runtime.{emit_event, disable}
use y5fgb.Plugins.Runtime.Events.{event_for, emit_event-posted}
use y5fgb.Plugins.Host.{fail_plugin, Instance, Host}
use y5fgb.Plugins.Window.Instances.{handle_window_message-IsValidHost}
use y5fgb.Plugins.Enable.{create_active_instance, begin_enable}
use y5fgb.Plugins.Manifest.{Manifest}
use y5fgb.Plugins.Enable.Launch.{IsLaunched, begin_enable-IsLaunched}
use y5fgb.Plugins.Capability.{is_capability_allowed_in_v1}

abbrev forged : WindowEvent
forged = record {
  source = some 1;
  origin = codes "null";
  payload = record {
    kind = MessageKind.bridge_request;
    plugin_id = some (codes "notes");
    bootstrap_token = none;
    runtime_token = some (codes "guess");
    message = [];
    request = request;
  };
}

forged_found : find_instance_for_message forged host ≡ some notes
unfolding find_instance_for_message find_by_window find
forged_found = refl

forged_differs :
    (i : Instance)
    → find_instance_for_message forged host ≡ some i
    → is_token forged.payload.runtime_token i.runtime_token ≡ false
unfolding is_token eq_text
forged_differs i e =
    subst (λ x. is_token forged.payload.runtime_token x.runtime_token ≡ false)
      (some-injective notes i (sym forged_found ∙ e)) refl

handle_window_message-IsQuiet_example :
    IsQuiet host (handle_window_message platform now now (codes "app://host") forged host)
handle_window_message-IsQuiet_example =
    handle_window_message-IsQuiet platform now now forged host (codes "app://host") forged_differs

handle_window_message-IsValidHost_example :
    IsValidHost (handle_window_message platform now now (codes "app://host") forged host)
handle_window_message-IsValidHost_example =
    handle_window_message-IsValidHost platform now now (codes "app://host") forged host
      ((refl, notes_valid), tt)

emit_event-posted_example :
    (emit_event (codes "message.visible") host).posted
    ≡ []
      ++ map
          (event_for (codes "message.visible"))
          (filter (λ i. has_text (codes "message.visible") i.subscriptions) (notes ∷ []))
emit_event-posted_example = emit_event-posted (codes "message.visible") host

notes_active : lookup (codes "notes") host.instances ≡ some notes
unfolding lookup eq_text
notes_active = refl

disable-IsDown_example :
    IsDown (codes "notes") (disable now (codes "notes") host)
    × (lookup (codes "notes") (disable now (codes "notes") host).plugins.desired_enabled
        ≡ some false)
disable-IsDown_example = disable-IsDown now (codes "notes") host notes notes_active

fail_plugin-IsDown_example :
    IsDown (codes "notes") (fail_plugin now now (codes "notes") (codes "timeout") host)
fail_plugin-IsDown_example =
    fail_plugin-IsDown now now (codes "notes") (codes "timeout") host notes notes_active

abbrev descriptors : Dict Manifest
descriptors = (codes "notes", manifest) ∷ []

abbrev idle : Host
idle = record host { instances = [] }

abbrev started : Instance
started = create_active_instance manifest 4 (codes "boot") (codes "run")

started_runs :
    (begin_enable now (codes "boot") (codes "run") 4 descriptors (codes "notes") idle).1
    ≡ some started
unfolding begin_enable lookup eq_text find is_capability_allowed_in_v1 has_text
started_runs = refl

begin_enable-IsLaunched_example :
    IsLaunched
      (codes "notes")
      idle
      (begin_enable now (codes "boot") (codes "run") 4 descriptors (codes "notes") idle).0
      started
begin_enable-IsLaunched_example =
    begin_enable-IsLaunched now (codes "boot") (codes "run") 4 descriptors (codes "notes") idle
      started started_runs
