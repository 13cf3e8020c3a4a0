-- ===== src/Messaging/Links.antt =====
-- The transport of apps/client-desktop/src/services/messaging/runtime.ts as a machine: the calls of
-- `start` and `stop`, and what the socket, the timer and the long poll loop report in between.
pub mod Backoff
use y5fgb.Messaging.Store
use y5fgb.Messaging.Connection.{
  SocketState, Link, apply_transport_config, TransportConfig, transport_patch, Connection,
}
use y5fgb.Common.{
  eq_text, List, some, not, Option, or_default, ℕ, Text, if◌then◌else◌, false, [], none, ◌&&◌, ◌∷◌,
  is_empty,
}
use y5fgb.Messaging.Events.{
  on_connected, stop_link, on_disconnected, connect_web_socket, ensure_long_poll_loop, on_error,
  on_timer, on_poll_failed, is_busy,
}
use y5fgb.Messaging.Errors.{Thrown}
use y5fgb.Messaging.Store.{TransportMode, TransportStatus}

-- What a step takes from outside: `Math.floor(Math.random() * n)`, the time, `i18n.t`, the address of
-- `/sync/poll` on the active server, and `appConfig.transportEndpointOverrides`.
pub record Surroundings : Type 0 where
  pub draw : ℕ → ℕ
  pub now : Text
  pub translate : Text → Text
  pub poll_url : Text
  pub overrides : List Text

pub data LinkEvent : Type 0 where
  started : (access_token : Text) → LinkEvent
  token_required : (stored : Option Text) → LinkEvent
  config_requested : (stored : Option Text) → LinkEvent
  configured : TransportConfig → LinkEvent
  connected : (endpoint : Text) → LinkEvent
  disconnected : (reason : Option Text) → (endpoint : Text) → LinkEvent
  failed : (message endpoint : Text) → LinkEvent
  timer_fired : LinkEvent
  poll_failed : Thrown → LinkEvent
  loop_ended : LinkEvent
  stopped : LinkEvent

-- The beginning of `start`, up to its first wait.
unfoldable pub start_link : Text → Text → Link → Link
unfolding stop_link
start_link now access_token link =
    let c = link.connection in
    let rest = if c.is_stopped then link else stop_link now link in
    if not c.is_stopped && eq_text (or_default c.access_token []) access_token
    then link
    else record {
      connection = record rest.connection { access_token = some access_token; is_stopped = false };
      messaging =
          Store.set_transport_state now
            (transport_patch TransportMode.no_transport TransportStatus.connecting none)
            rest.messaging;
    }

-- `requireAccessToken`, where `stored` is the token in the auth store: a runtime without a token takes
-- that one, and it throws where there is none.
unfoldable pub require_access_token : Option Text → Connection → Option Connection
require_access_token stored c =
    if not (is_empty (or_default c.access_token []))
    then some c
    else if is_empty (or_default stored [])
    then none
    else some (record c { access_token = stored })

-- `requireAccessToken` at the head of a call that rethrows to its caller, as loading, flushing and
-- synchronizing do, also after `stop`.
unfoldable pub take_token : Option Text → Link → Link
unfolding require_access_token
take_token stored link = elim (require_access_token stored link.connection) [
  | none ↦ link
  | some c ↦ record link { connection = c }
]

-- The head of `configureTransport`: where it throws, the `catch` of `start` stops the runtime.
unfoldable pub request_config : Text → Option Text → Link → Link
unfolding require_access_token stop_link
request_config now stored link = elim (require_access_token stored link.connection) [
  | none ↦ stop_link now link
  | some c ↦ record link { connection = c }
]

-- The end of `start`, from the answer to `configureTransport`: `applyTransportConfig`, `connectWebSocket` and `ensureLongPollLoop`.
unfoldable pub configure_link : Surroundings → TransportConfig → Link → Link
unfolding apply_transport_config connect_web_socket ensure_long_poll_loop
configure_link env config link =
    let c = apply_transport_config env.overrides env.poll_url config link.connection in
    let tried = connect_web_socket env.now (record link { connection = c }) in
    record tried { connection = ensure_long_poll_loop tried.connection }

-- A socket that was closed by `disconnect` reports nothing, and a timer that is not set does not fire.
unfoldable pub link_step : Surroundings → Link → LinkEvent → Link
unfolding start_link take_token request_config configure_link on_connected on_disconnected on_error
    on_timer on_poll_failed stop_link
link_step env link (started access_token) = start_link env.now access_token link
link_step env link (token_required stored) = take_token stored link
link_step env link (config_requested stored) = request_config env.now stored link
link_step env link (configured config) = configure_link env config link
link_step env link (connected endpoint) = elim link.connection.socket [
  | SocketState.connecting ↦ on_connected env.now endpoint link
  | _ ↦ link
]
link_step env link (disconnected reason endpoint) =
    if is_busy link.connection.socket
    then on_disconnected env.draw env.now reason endpoint link
    else link
link_step env link (failed message endpoint) =
    if is_busy link.connection.socket then on_error env.now message endpoint link else link
link_step env link timer_fired = elim link.connection.reconnect_delay [
  | none ↦ link
  | some delay ↦ on_timer env.now link
]
link_step env link (poll_failed error) =
    on_poll_failed env.translate env.now env.poll_url error link
link_step env link loop_ended = record link {
  connection = record link.connection { long_poll_running = false };
}
link_step env link stopped = stop_link env.now link

unfoldable pub run_link : Surroundings → Link → List LinkEvent → Link
unfolding link_step
run_link env link [] = link
run_link env link (e ∷ es) = run_link env (link_step env link e) es
