-- ===== src/Messaging/Events.antt =====
-- The operations of the transport in apps/client-desktop/src/services/messaging/runtime.ts: what
-- happens on a socket event, when the timer fires, and in a turn of the long poll loop.
use y5fgb.Messaging.Store
use y5fgb.Messaging.Store.{TransportMode, TransportStatus, TransportPatch}
use y5fgb.Messaging.Connection.{
  transport_patch, error_patch, SocketState, Connection, Link, endpoint_at,
  resolve_long_poll_endpoint,
}
use y5fgb.Common.{
  if◌then◌else◌, or_default, ◌%◌, Text, Bool, codes, length, is_empty, ◌&&◌, ◌||◌, true, max, some,
  ◌+◌, ◌/◌, Option, [], ◌*◌, false, ℕ, min, ◌==◌, ltb, none, not,
}
use y5fgb.Messaging.Errors.{Thrown, classify_messaging_error}
use y5fgb.Messaging.Flush.{is_retryable}

abbrev report : Text → TransportPatch → Link → Link
report now patch link = record link {
  messaging = Store.set_transport_state now patch link.messaging;
}

-- `isConnected() || isConnecting()`
abbrev pub is_busy : SocketState → Bool
is_busy SocketState.closed = false
is_busy SocketState.connecting = true
is_busy SocketState.open_socket = true

-- `connectWebSocket`: the endpoint is taken to be a URL that the browser accepts.
unfoldable pub connect_web_socket : Text → Link → Link
connect_web_socket now link =
    let c = link.connection in
    if c.is_stopped || is_empty (or_default c.access_token [])
    then link
    else elim (endpoint_at c.ws_endpoint_index c.ws_endpoints) [
      | none ↦ link
      | some endpoint ↦ if is_busy c.socket then link else record {
        connection = record c { socket = SocketState.connecting };
        messaging =
            Store.set_transport_state now
              (transport_patch TransportMode.websocket TransportStatus.connecting (some endpoint))
              link.messaging;
      }
    ]

-- `onConnected`
unfoldable pub on_connected : Text → Text → Link → Link
on_connected now endpoint link =
    let c = link.connection in
    report now (transport_patch TransportMode.websocket TransportStatus.connected (some endpoint))
      (record link {
        connection = record c { socket = SocketState.open_socket; backoff_current = c.backoff_min };
      })

abbrev is_long_poll : TransportMode → Bool
is_long_poll TransportMode.long_poll = true
is_long_poll _ = false

-- `reportWebSocketIssue`
unfoldable pub report_web_socket_issue : Text → Text → Text → Link → Link
report_web_socket_issue now last_error endpoint link =
    let status =
      if link.connection.long_poll_enabled
      then TransportStatus.degraded
      else TransportStatus.offline in
    if is_long_poll link.messaging.transport.mode
    then report now (error_patch last_error) link
    else report now
        (record {
          mode = some TransportMode.websocket;
          status = some status;
          endpoint = some (some endpoint);
          last_error = some (some last_error);
          last_cursor = none;
        })
        link

-- `ensureLongPollLoop`
unfoldable pub ensure_long_poll_loop : Connection → Connection
ensure_long_poll_loop c =
    if c.long_poll_running || c.is_stopped || not c.long_poll_enabled
    then c
    else record c { long_poll_running = true }

-- `scheduleReconnect`
unfoldable pub schedule_reconnect : (ℕ → ℕ) → Connection → Connection
schedule_reconnect draw c =
    let base = c.backoff_current in
    let jitter = draw (max 10 (base / 4)) in
    if c.is_stopped || length c.ws_endpoints == 0 then c else record c {
      reconnect_delay = some (base + jitter);
      backoff_current = min (c.backoff_current * 2) c.backoff_max;
      ws_endpoint_index = (c.ws_endpoint_index + 1) % max (length c.ws_endpoints) 1;
    }

-- `onDisconnected`: the socket is closed, whether the runtime is stopped or not.
unfoldable pub on_disconnected : (ℕ → ℕ) → Text → Option Text → Text → Link → Link
unfolding schedule_reconnect ensure_long_poll_loop report_web_socket_issue
on_disconnected draw now reason endpoint link =
    let down = record link {
      connection = record link.connection { socket = SocketState.closed };
    } in
    let told =
      report_web_socket_issue now (or_default reason (codes "websocket disconnected")) endpoint
        down in
    if link.connection.is_stopped then down else record told {
      connection = schedule_reconnect draw (ensure_long_poll_loop told.connection);
    }

-- `onError`
unfoldable pub on_error : Text → Text → Text → Link → Link
unfolding report_web_socket_issue
on_error now message endpoint link =
    if link.connection.is_stopped then link else report_web_socket_issue now message endpoint link

-- The callback of the reconnect timer.
unfoldable pub on_timer : Text → Link → Link
unfolding connect_web_socket
on_timer now link =
    connect_web_socket now
      (record link { connection = record link.connection { reconnect_delay = none } })

-- The `catch` of the long poll loop.
unfoldable pub on_poll_failed : (Text → Text) → Text → Text → Thrown → Link → Link
on_poll_failed translate now poll_url error link =
    let c = link.connection in
    let classified = classify_messaging_error translate error in
    let endpoint = resolve_long_poll_endpoint poll_url c in
    let rotates = ltb 1 (length c.long_poll_endpoints) && is_retryable classified.class in
    report now
      (record {
        mode = some TransportMode.long_poll;
        status = some TransportStatus.offline;
        endpoint = some (some endpoint);
        last_error = some (some classified.message);
        last_cursor = none;
      })
      (record link {
        connection =
            if rotates
            then record c {
              long_poll_endpoint_index =
                  (c.long_poll_endpoint_index + 1) % length c.long_poll_endpoints;
            }
            else c;
      })

-- `stop`
unfoldable pub stop_link : Text → Link → Link
stop_link now link =
    report now (transport_patch TransportMode.no_transport TransportStatus.offline none)
      (record link {
        connection = record link.connection {
          is_stopped = true;
          access_token = none;
          ws_endpoint_index = 0;
          long_poll_endpoint_index = 0;
          socket = SocketState.closed;
          reconnect_delay = none;
        };
      })
