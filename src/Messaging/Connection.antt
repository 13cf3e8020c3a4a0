-- ===== src/Messaging/Connection.antt =====
-- The transport half of apps/client-desktop/src/services/messaging/runtime.ts: the endpoints, the
-- backoff between reconnections, and the events of the WebSocket. `draw n` is
-- `Math.floor(Math.random() * n)`; `poll_url` is the address of `/sync/poll` on the active server.
use y5fgb.Messaging.Store.{TransportMode, TransportStatus, TransportPatch, MessagingState}
use y5fgb.Common.{
  trim, not, List, suc, if◌then◌else◌, starts_with, Bool, false, none, length, filter, is_empty,
  ◌++◌, ◌&&◌, map, ◌||◌, [], or_default, true, codes, has_text, zero, ◌%◌, some, Option, Text, ℕ,
  ◌==◌, ◌∷◌,
}

pub data EndpointMode : Type 0 where
  websocket long_poll : EndpointMode

-- `TransportEndpointDTO`, the fields that the client reads.
pub record TransportEndpoint : Type 0 where
  pub url : Text
  pub mode : EndpointMode
  pub enabled : Bool

-- `TransportEndpointsResponse`, with the fields of its profile.
pub record TransportConfig : Type 0 where
  pub endpoints : List TransportEndpoint
  pub reconnect_backoff_min_ms : ℕ
  pub reconnect_backoff_max_ms : ℕ
  pub long_poll_timeout_seconds : ℕ
  pub long_poll_enabled : Bool

pub data SocketState : Type 0 where
  closed connecting open_socket : SocketState

-- The fields of `MessagingRuntime` on the transport. `reconnect_delay` is the delay of the timer that
-- is set.
pub record Connection : Type 0 where
  pub access_token : Option Text
  pub is_stopped : Bool
  pub socket : SocketState
  pub long_poll_running : Bool
  pub reconnect_delay : Option ℕ
  pub ws_endpoints : List Text
  pub long_poll_endpoints : List Text
  pub ws_endpoint_index : ℕ
  pub long_poll_endpoint_index : ℕ
  pub backoff_min : ℕ
  pub backoff_max : ℕ
  pub backoff_current : ℕ
  pub long_poll_timeout_sec : ℕ
  pub long_poll_enabled : Bool

abbrev pub initial_connection : Connection
initial_connection = record {
  access_token = none;
  is_stopped = true;
  socket = SocketState.closed;
  long_poll_running = false;
  reconnect_delay = none;
  ws_endpoints = [];
  long_poll_endpoints = [];
  ws_endpoint_index = 0;
  long_poll_endpoint_index = 0;
  backoff_min = 500;
  backoff_max = 10_000;
  backoff_current = 500;
  long_poll_timeout_sec = 25;
  long_poll_enabled = true;
}

pub record Link : Type 0 where
  pub connection : Connection
  pub messaging : MessagingState

-- The loop of `dedupeEndpoints`.
unfoldable pub dedupe_from : List Text → List Text → List Text
dedupe_from seen [] = []
dedupe_from seen (value ∷ values) =
    let normalized = trim value in
    let kept = normalized ∷ dedupe_from (normalized ∷ seen) values in
    let skipped = dedupe_from seen values in
    elim (is_empty normalized || has_text normalized seen) [ true ↦ skipped | false ↦ kept ]

unfoldable pub dedupe_endpoints : List Text → List Text
unfolding dedupe_from
dedupe_endpoints = dedupe_from []

abbrev is_mode : EndpointMode → EndpointMode → Bool
is_mode EndpointMode.websocket EndpointMode.websocket = true
is_mode EndpointMode.long_poll EndpointMode.long_poll = true
is_mode _ _ = false

unfoldable pub enabled_urls : EndpointMode → List TransportEndpoint → List Text
enabled_urls mode endpoints =
    map (λ e. e.url) (filter (λ e. e.enabled && is_mode e.mode mode) endpoints)

abbrev is_ws_url : Text → Bool
is_ws_url url = starts_with (codes "ws://") url || starts_with (codes "wss://") url

abbrev is_http_url : Text → Bool
is_http_url url = starts_with (codes "http://") url || starts_with (codes "https://") url

-- `applyTransportConfig`, with `appConfig.transportEndpointOverrides`.
unfoldable pub apply_transport_config : List Text → Text → TransportConfig → Connection → Connection
unfolding dedupe_endpoints enabled_urls
apply_transport_config overrides poll_url config c =
    let ws =
      dedupe_endpoints
        (enabled_urls EndpointMode.websocket config.endpoints ++ filter is_ws_url overrides) in
    let polls = dedupe_endpoints (
      enabled_urls EndpointMode.long_poll config.endpoints
      ++ filter (λ url. not (is_ws_url url) && is_http_url url) overrides) in
    record c {
      ws_endpoints = ws;
      long_poll_endpoints =
          if length polls == 0 && config.long_poll_enabled then poll_url ∷ [] else polls;
      long_poll_enabled = config.long_poll_enabled;
      long_poll_timeout_sec = config.long_poll_timeout_seconds;
      backoff_min = config.reconnect_backoff_min_ms;
      backoff_max = config.reconnect_backoff_max_ms;
      backoff_current = config.reconnect_backoff_min_ms;
    }

-- `endpoints[index % endpoints.length]`
unfoldable pub nth : ℕ → List Text → Option Text
nth n [] = none
nth zero (x ∷ xs) = some x
nth (suc n) (x ∷ xs) = nth n xs

unfoldable pub endpoint_at : ℕ → List Text → Option Text
unfolding nth
endpoint_at index endpoints = nth (index % length endpoints) endpoints

unfoldable pub resolve_long_poll_endpoint : Text → Connection → Text
unfolding endpoint_at
resolve_long_poll_endpoint poll_url c =
    or_default (endpoint_at c.long_poll_endpoint_index c.long_poll_endpoints) poll_url

abbrev pub transport_patch : TransportMode → TransportStatus → Option Text → TransportPatch
transport_patch mode status endpoint = record {
  mode = some mode;
  status = some status;
  endpoint = some endpoint;
  last_error = some none;
  last_cursor = none;
}

abbrev pub error_patch : Text → TransportPatch
error_patch last_error = record {
  mode = none;
  status = none;
  endpoint = none;
  last_error = some (some last_error);
  last_cursor = none;
}
