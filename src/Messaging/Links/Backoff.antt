-- ===== src/Messaging/Links/Backoff.antt =====
-- The waits between reconnections, and the sockets of a runtime that is stopped.
use y5fgb.Messaging.Connection.{
  SocketState, Connection, Link, endpoint_at, apply_transport_config, TransportConfig,
}
use y5fgb.Messaging.Links.{
  LinkEvent, configure_link, start_link, Surroundings, link_step, run_link, take_token,
  require_access_token, request_config,
}
use y5fgb.Messaging.Events.{
  connect_web_socket, ensure_long_poll_loop, schedule_reconnect, on_disconnected,
  report_web_socket_issue, stop_link, is_busy, on_connected, on_error, on_timer, on_poll_failed,
}
use y5fgb.Common.{
  [], ◌/◌, ◌≡◌, is_empty, ◌≤◌, ℕ, Bool, ◌||◌, Text, max, false, true, ◌+◌, ◌<◌, or_default,
  option_cases, Option, if_cases, not, none, some, ◌==◌, length, arith, subst, sym, eq_text, refl,
  ◌&&◌, ◌∷◌, List, All, codes, some-injective,
}

-- The backoffs that the server gives lie between two bounds.
abbrev pub IsWithin : ℕ → ℕ → LinkEvent → Type 0
IsWithin low high (LinkEvent.configured config) =
    (low ≤ config.reconnect_backoff_min_ms)
    × (config.reconnect_backoff_min_ms ≤ high)
    × (low ≤ config.reconnect_backoff_max_ms)
    × (config.reconnect_backoff_max_ms ≤ high)
IsWithin low high _ = Unit

-- The timer waits for at least the lower bound, and for less than the upper one with its jitter.
abbrev pub IsWait : ℕ → ℕ → Option ℕ → Type 0
IsWait low high none = Unit
IsWait low high (some delay) = (low ≤ delay) × (delay < high + max 10 (high / 4))

-- A runtime that is stopped has no socket and no timer.
abbrev pub IsQuiet : Bool → SocketState → Option ℕ → Type 0
IsQuiet true socket delay = (socket ≡ SocketState.closed) × (delay ≡ none)
IsQuiet false socket delay = Unit

abbrev pub IsCalm : ℕ → ℕ → Connection → Type 0
IsCalm low high c =
    ((low ≤ c.backoff_current) × (c.backoff_current ≤ high))
    × ((low ≤ c.backoff_min) × (c.backoff_min ≤ high))
    × ((low ≤ c.backoff_max) × (c.backoff_max ≤ high))
    × IsWait low high c.reconnect_delay
    × IsQuiet c.is_stopped c.socket c.reconnect_delay

-- `Math.floor(Math.random() * n)` is below `n`.
abbrev pub DrawsBelow : (ℕ → ℕ) → Type 0
DrawsBelow draw = (n : ℕ) → 0 < n → draw n < n

-- Nothing is asked of a runtime that runs.
awake : {b : Bool} (socket : SocketState) (delay : Option ℕ) → b ≡ false → IsQuiet b socket delay
awake socket delay e = rw e tt

closing :
    (b : Bool) (socket : SocketState) (delay : Option ℕ)
    → IsQuiet b socket delay
    → IsQuiet b SocketState.closed delay
closing true socket delay (_, none_set) = (refl, none_set)
closing false socket delay q = tt

unset :
    (b : Bool) (socket : SocketState) (delay : Option ℕ)
    → IsQuiet b socket delay
    → IsQuiet b socket none
unset true socket delay (closed, _) = (closed, refl)
unset false socket delay q = tt

opening :
    (b : Bool) (socket : SocketState) (delay : Option ℕ)
    → socket ≡ SocketState.connecting
    → IsQuiet b socket delay
    → IsQuiet b SocketState.open_socket delay
opening true socket delay e (closed, _) = absurd (cc)
opening false socket delay e q = tt

connecting_cases {ℓ κ} :
    {A : Type ℓ} (P : A → Type κ) (socket : SocketState) {x y : A}
    → (socket ≡ SocketState.connecting → P x)
    → P y
    → P (elim socket as (λ _. A) [ SocketState.connecting ↦ x | _ ↦ y ])
connecting_cases P SocketState.closed f g = g
connecting_cases P SocketState.connecting f g = f refl
connecting_cases P SocketState.open_socket f g = g

module _ (low high : ℕ) where
  abbrev IsCalmLink : Link → Type 0
  IsCalmLink link = IsCalm low high link.connection

  later :
      {draw : ℕ → ℕ} (current : ℕ)
      → DrawsBelow draw
      → (low ≤ current) × (current ≤ high)
      → IsWait low high (some (current + draw (max 10 (current / 4))))
  later current draws (least, most) =
      let drawn = draws (max 10 (current / 4)) (omega arith) in (omega arith, omega arith)

  connect_web_socket-IsCalm :
      (now : Text) (link : Link) → IsCalmLink link → IsCalmLink (connect_web_socket now link)
  unfolding connect_web_socket
  connect_web_socket-IsCalm now link calm =
      let c = link.connection in
      let (current, least, most, wait, _) = calm in
      if_cases IsCalmLink (c.is_stopped || is_empty (or_default c.access_token [])) (λ _. calm)
        (λ running.
          option_cases IsCalmLink (endpoint_at c.ws_endpoint_index c.ws_endpoints) (λ _. calm)
            (λ endpoint _.
              if_cases IsCalmLink (is_busy c.socket) (λ _. calm)
                (λ _. (current, least, most, wait, awake _ _ (ground arith)))))

  ensure_long_poll_loop-IsCalm :
      (c : Connection) → IsCalm low high c → IsCalm low high (ensure_long_poll_loop c)
  unfolding ensure_long_poll_loop
  ensure_long_poll_loop-IsCalm c calm =
      if_cases (IsCalm low high) (c.long_poll_running || c.is_stopped || not c.long_poll_enabled)
        (λ _. calm) (λ _. calm)

  schedule_reconnect-IsCalm :
      (draw : ℕ → ℕ) (c : Connection)
      → DrawsBelow draw
      → IsCalm low high c
      → IsCalm low high (schedule_reconnect draw c)
  unfolding schedule_reconnect
  schedule_reconnect-IsCalm draw c draws calm =
      let (current, least, most, _, _) = calm in
      if_cases (IsCalm low high) (c.is_stopped || length c.ws_endpoints == 0) (λ _. calm)
        (λ running. (
          (ground arith, ground arith),
          least,
          most,
          later c.backoff_current draws current,
          awake _ _ (ground arith),
        ))

  report_web_socket_issue-connection :
      (now last_error endpoint : Text) (link : Link)
      → (report_web_socket_issue now last_error endpoint link).connection ≡ link.connection
  unfolding report_web_socket_issue
  report_web_socket_issue-connection now last_error endpoint link = ground arith

  report_web_socket_issue-IsCalm :
      (now last_error endpoint : Text) (link : Link)
      → IsCalmLink link
      → IsCalmLink (report_web_socket_issue now last_error endpoint link)
  report_web_socket_issue-IsCalm now last_error endpoint link =
      subst (IsCalm low high)
        (sym (report_web_socket_issue-connection now last_error endpoint link))

  stop_link-IsCalm : (now : Text) (link : Link) → IsCalmLink link → IsCalmLink (stop_link now link)
  unfolding stop_link
  stop_link-IsCalm now link (current, least, most, _, _) = (current, least, most, tt, (refl, refl))

  start_link-IsCalm :
      (now token : Text) (link : Link) → IsCalmLink link → IsCalmLink (start_link now token link)
  unfolding start_link
  start_link-IsCalm now token link calm =
      let c = link.connection in
      let (current, least, most, wait, _) =
        if_cases IsCalmLink c.is_stopped {x = link} {y = stop_link now link} (λ _. calm)
          (λ _. stop_link-IsCalm now link calm) in
      if_cases IsCalmLink (not c.is_stopped && eq_text (or_default c.access_token []) token)
        (λ _. calm) (λ _. (current, least, most, wait, tt))

  -- A token that is taken changes nothing that is bounded.
  require_access_token-IsCalm :
      (stored : Option Text) (c c' : Connection)
      → require_access_token stored c ≡ some c'
      → IsCalm low high c
      → IsCalm low high c'
  unfolding require_access_token
  require_access_token-IsCalm stored c c' taken calm =
      if_cases (λ o. o ≡ some c' → IsCalm low high c')
        (not (is_empty (or_default c.access_token [])))
        (λ _ e. subst (IsCalm low high) (some-injective c c' e) calm)
        (λ _.
          if_cases (λ o. o ≡ some c' → IsCalm low high c') (is_empty (or_default stored []))
            (λ _ e. absurd (ground (arith, e)))
            (λ _ e. subst (IsCalm low high) (some-injective _ c' e) calm))
        taken

  configure_link-IsCalm :
      (env : Surroundings) (config : TransportConfig) (link : Link)
      → IsWithin low high (LinkEvent.configured config)
      → IsCalmLink link
      → IsCalmLink (configure_link env config link)
  unfolding configure_link apply_transport_config
  configure_link-IsCalm env config link (a, b, c, d) (_, _, _, wait, quiet) =
      let applied = record link {
        connection = apply_transport_config env.overrides env.poll_url config link.connection;
      } in
      ensure_long_poll_loop-IsCalm (connect_web_socket env.now applied).connection
        (connect_web_socket-IsCalm env.now applied ((a, b), (a, b), (c, d), wait, quiet))

  on_disconnected-IsCalm :
      (draw : ℕ → ℕ) (now : Text) (reason : Option Text) (endpoint : Text) (link : Link)
      → DrawsBelow draw
      → IsCalmLink link
      → IsCalmLink (on_disconnected draw now reason endpoint link)
  unfolding on_disconnected
  on_disconnected-IsCalm draw now reason endpoint link draws (current, least, most, wait, quiet) =
      let c = record link.connection { socket = SocketState.closed } in
      let down : IsCalm low high c = (current, least, most, wait, closing _ _ _ quiet) in
      let why = or_default reason (codes "websocket disconnected") in
      let told = report_web_socket_issue now why endpoint (record link { connection = c }) in
      let told_calm =
        report_web_socket_issue-IsCalm now why endpoint (record link { connection = c }) down in
      if_cases IsCalmLink link.connection.is_stopped (λ _. down)
        (λ _.
          schedule_reconnect-IsCalm draw (ensure_long_poll_loop told.connection) draws
            (ensure_long_poll_loop-IsCalm told.connection told_calm))

  link_step-IsCalm :
      (env : Surroundings) (link : Link) (e : LinkEvent)
      → DrawsBelow env.draw
      → IsWithin low high e
      → IsCalmLink link
      → IsCalmLink (link_step env link e)
  unfolding link_step take_token request_config on_connected on_error on_timer on_poll_failed
  link_step-IsCalm env link (LinkEvent.started token) draws within calm =
      start_link-IsCalm env.now token link calm
  link_step-IsCalm env link (LinkEvent.token_required stored) draws within calm =
      option_cases IsCalmLink (require_access_token stored link.connection) (λ _. calm)
        (λ c taken. require_access_token-IsCalm stored link.connection c taken calm)
  link_step-IsCalm env link (LinkEvent.config_requested stored) draws within calm =
      option_cases IsCalmLink (require_access_token stored link.connection)
        (λ _. stop_link-IsCalm env.now link calm)
        (λ c taken. require_access_token-IsCalm stored link.connection c taken calm)
  link_step-IsCalm env link (LinkEvent.configured config) draws within calm =
      configure_link-IsCalm env config link within calm
  link_step-IsCalm env link (LinkEvent.connected endpoint) draws within calm =
      let (current, least, most, wait, quiet) = calm in
      connecting_cases IsCalmLink link.connection.socket
        (λ e. (least, least, most, wait, opening _ _ _ e quiet)) calm
  link_step-IsCalm env link (LinkEvent.disconnected reason endpoint) draws within calm =
      if_cases IsCalmLink (is_busy link.connection.socket)
        (λ _. on_disconnected-IsCalm env.draw env.now reason endpoint link draws calm) (λ _. calm)
  link_step-IsCalm env link (LinkEvent.failed message endpoint) draws within calm =
      if_cases IsCalmLink (is_busy link.connection.socket)
        (λ _.
          if_cases IsCalmLink link.connection.is_stopped (λ _. calm)
            (λ _. report_web_socket_issue-IsCalm env.now message endpoint link calm))
        (λ _. calm)
  link_step-IsCalm env link LinkEvent.timer_fired draws within calm =
      let (current, least, most, wait, quiet) = calm in
      option_cases IsCalmLink link.connection.reconnect_delay (λ _. calm)
        (λ _ _.
          connect_web_socket-IsCalm env.now
            (record link { connection = record link.connection { reconnect_delay = none } })
            (current, least, most, tt, unset _ _ _ quiet))
  link_step-IsCalm env link (LinkEvent.poll_failed error) draws within calm =
      if_cases (IsCalm low high) _ (λ _. calm) (λ _. calm)
  link_step-IsCalm env link LinkEvent.loop_ended draws within calm = calm
  link_step-IsCalm env link LinkEvent.stopped draws within calm = stop_link-IsCalm env.now link calm

  -- Over every run of the transport, a timer that is set waits for at least the lowest backoff that the
  -- server gave and for less than the highest one with its jitter, and a runtime that is stopped has no
  -- socket and no timer, also where a call that is still under way takes the token of the auth store
  -- or opens the transport. This is provided that it was so before and that a random draw below n is
  -- below n.
  pub run_link-IsCalm :
      (env : Surroundings) (link : Link) (es : List LinkEvent)
      → DrawsBelow env.draw
      → All (IsWithin low high) es
      → IsCalmLink link
      → IsCalmLink (run_link env link es)
  unfolding run_link
  run_link-IsCalm env link [] draws within calm = calm
  run_link-IsCalm env link (e ∷ es) draws (first, rest) calm =
      run_link-IsCalm env (link_step env link e) es draws rest
        (link_step-IsCalm env link e draws first calm)
