-- ===== src/Messaging/RuntimeTests.antt =====
-- Instances of the theorems on the messaging runtime, at small inputs.
use y5fgb.Messaging.Store
use y5fgb.Messaging.Model.{
  Message, DeliveryState, OutboxItem, DeviceStatus, ConversationType, ConversationRole,
  Conversation, SendRequest, Device,
}
use y5fgb.Messaging.Connection.{
  EndpointMode, initial_connection, Link, TransportConfig, apply_transport_config, endpoint_at, nth,
  dedupe_endpoints, dedupe_from, enabled_urls, SocketState,
}
use y5fgb.Messaging.Links.{
  LinkEvent, run_link, Surroundings, link_step, start_link, configure_link, take_token,
  request_config, require_access_token,
}
use y5fgb.Messaging.SyncLoop.{LoopEvent}
use y5fgb.Messaging.Flush.{Environment, accepted, rejected, Client, flush_round, is_retryable}
use y5fgb.Messaging.Hydrate.{
  Receiver, keys, resolve_recipients, is_past, resolve_members, hydrate_message, resolve_devices,
}
use y5fgb.Common.{
  true, ◌∷◌, refl, trim_end, codes, get_field, arith, List, ℕ, subst, trim, integer, is_empty,
  lt_text, ◌≡◌, any, if◌then◌else◌, find, trim_start, IsDistinctBy, starts_with, Text,
  some-injective, filter, ◌-◌, eq_text, has_text, sort_by, some, false, is_space, Json, All, sym,
  none, [],
}
use y5fgb.Messaging.Database.{OutboxRow, is_outbox_row, empty_database, outbox_rows}
use y5fgb.Messaging.Crypto.{
  Randomness, Sodium, EncryptedMessage, encrypt_message, RecipientMaterial, wrap_keys, KeyPair,
  wrap_key,
}
use y5fgb.Messaging.Hydrate.Decryption.{IsOpener, IsForeign, carrying, hydrate_message-encrypted}
use y5fgb.Messaging.LocalStore.{list_outbox, outbox_item, open_all}
use y5fgb.Messaging.Links.Backoff.{IsCalm, run_link-IsCalm}
use y5fgb.Messaging.Hydrate.Recipients.{for_device, candidates, resolve_recipients-candidates}
use Prim.Native.String.{String}
use y5fgb.Messaging.Sync.Cursor.{Occasion, IsAbove, received, received-IsAbove_hint}
use y5fgb.Messaging.Flush.Outbox.{settled, is_kept, client_of, flush_round-settled}
use y5fgb.Messaging.Errors.{
  classify_messaging_error, api_error, extract_api_error_code, error_field,
}
use y5fgb.Messaging.Events.{
  on_connected, on_disconnected, connect_web_socket, ensure_long_poll_loop, schedule_reconnect,
  stop_link, report_web_socket_issue,
}

abbrev pub message : String → ℕ → Message
message id sequence = record {
  envelope = record {
    id = codes id;
    conversation_id = codes "c1";
    sender_account_id = codes "a1";
    sender_device_id = codes "d1";
    client_message_id = codes "m1";
    algorithm = codes "x";
    crypto_version = 1;
    nonce = [];
    ciphertext = [];
    recipients = [];
    attachments = [];
    reply_to_message_id = none;
    ttl_seconds = none;
    created_at = codes "2024-01-01";
    expires_at = none;
    server_sequence = sequence;
  };
  delivery_state = DeliveryState.sent;
  delivered_at = none;
  failed_reason = none;
  receipts = [];
}

abbrev pub request : Text → SendRequest
request id = record {
  client_message_id = id;
  algorithm = codes "x";
  crypto_version = 1;
  nonce = [];
  ciphertext = [];
  recipients = [];
  attachment_ids = [];
  reply_to_message_id = none;
  ttl_seconds = none;
}

abbrev pub row : String → OutboxRow
row id = record {
  client_message_id = codes id;
  conversation_id = codes "c1";
  payload = codes id;
  created_at = codes "2024-01-01";
  retry_count = 0;
}

abbrev pub item : String → OutboxItem
item id = record {
  client_message_id = codes id;
  conversation_id = codes "c1";
  payload = request (codes id);
  created_at = codes "2024-01-01";
  retry_count = 0;
}

-- A toy cipher: a box opens under the public key `p1` only.
abbrev pub sodium : Sodium
sodium = record {
  from_base64 = λ text. some text;
  to_base64 = λ bytes. bytes;
  from_string = λ text. text;
  to_string = λ bytes. some bytes;
  aead_encrypt = λ m nonce key. m;
  aead_decrypt = λ c nonce key. some c;
  box_seal = λ seed m public_key. some m;
  box_seal_open = λ sealed public_key private_key.
      if eq_text public_key (codes "p1") then some sealed else none;
  hash_sha256 = none;
  generic_hash = λ n bytes. bytes;
  to_hex = λ bytes. bytes;
}

abbrev pair : String → String → KeyPair
pair public private = record { public_key = codes public; private_key = codes private }

abbrev pub receiver : Receiver
receiver = record {
  sodium = sodium;
  clock = 0;
  now = codes "2024-01-02";
  time_of = λ _. none;
  session_device = some (codes "d1");
  key_ring = keys (pair "p2" "s2" ∷ pair "p1" "s1" ∷ []);
  parse = λ text. some (record { text = text; attachments = []; created_at = none });
  parse_error = λ text. [];
}

-- The server takes `m1`, and is out of order for any other item.
abbrev pub environment : Environment
environment = record {
  access_token = some (codes "token");
  session_device = some (codes "d1");
  reply = λ i.
      if eq_text i.client_message_id (codes "m1")
      then accepted (message "s1" 1)
      else rejected (api_error 503 Json.null);
  hydrate = hydrate_message receiver;
  translate = λ text. text;
  requests = record { seal = λ nonce r. r.client_message_id; unseal = λ text. some (request text) };
  messages = record { seal = λ nonce m. m.envelope.id; unseal = λ text. none };
  nonce = [];
  now = codes "2024-01-02";
}

abbrev pub client : Client
client = record {
  database = record empty_database { outbox = row "m1" ∷ row "m2" ∷ [] };
  messaging = Store.initial_state;
  sent = [];
}

stored_items : list_outbox environment.requests client.database ≡ some (item "m1" ∷ item "m2" ∷ [])
unfolding list_outbox outbox_rows outbox_item open_all sort_by lt_text
stored_items = refl

distinct_rows : IsDistinctBy (λ (r : OutboxRow). r.client_message_id) client.database.outbox
unfolding any eq_text
distinct_rows = (refl, (refl, tt))

flush_round-settled_example :
    let after = client_of (flush_round environment client) in
    (after.sent ≡ item "m1" ∷ item "m2" ∷ [])
    × (find (is_outbox_row (codes "m2")) after.database.outbox
        ≡ settled environment
            (codes "m2")
            (item "m1" ∷ item "m2" ∷ [])
            (find (is_outbox_row (codes "m2")) client.database.outbox))
flush_round-settled_example =
    flush_round-settled environment client (codes "token") (item "m1" ∷ item "m2" ∷ []) (codes "m2")
      refl stored_items distinct_rows

-- The second row is kept with one more retry.
settled_runs :
    settled environment (codes "m2") (item "m1" ∷ item "m2" ∷ []) (some (row "m2"))
    ≡ some (record (row "m2") { retry_count = 1 })
unfolding settled is_kept find eq_text classify_messaging_error extract_api_error_code error_field
    get_field has_text any is_retryable
settled_runs = refl

-- The server announces the message 7 by its own sequence.
abbrev announced : Occasion
announced = record { hint = some 7; messages = message "s7" 7 ∷ []; is_live = λ _. true }

received-IsAbove_hint_example :
    All
      (IsAbove 7)
      (received environment (announced ∷ record announced { hint = none } ∷ []) client 0)
received-IsAbove_hint_example =
    received-IsAbove_hint environment announced (record announced { hint = none } ∷ []) client 0 7
      refl

abbrev requests : List LoopEvent
requests =
    LoopEvent.requested none
    ∷ LoopEvent.requested (some (integer 5))
    ∷ LoopEvent.poll_done
    ∷ LoopEvent.requested (some (integer 9))
    ∷ LoopEvent.requested (some (integer 3))
    ∷ []

abbrev config : TransportConfig
config = record {
  endpoints =
      (record { url = codes "wss://a"; mode = EndpointMode.websocket; enabled = true }) ∷ [];
  reconnect_backoff_min_ms = 400;
  reconnect_backoff_max_ms = 8000;
  long_poll_timeout_seconds = 20;
  long_poll_enabled = true;
}

abbrev link_events : List LinkEvent
link_events =
    LinkEvent.started (codes "token")
    ∷ LinkEvent.config_requested (some (codes "token"))
    ∷ LinkEvent.configured config
    ∷ LinkEvent.connected (codes "wss://a")
    ∷ LinkEvent.disconnected none (codes "wss://a")
    ∷ LinkEvent.token_required none
    ∷ []

abbrev surroundings : Surroundings
surroundings = record {
  draw = λ n. n - 1;
  now = codes "2024-01-02";
  translate = λ text. text;
  poll_url = codes "https://a/sync/poll";
  overrides = [];
}

abbrev idle_link : Link
idle_link = record { connection = initial_connection; messaging = Store.initial_state }

run_link-IsCalm_example : IsCalm 400 10_000 (run_link surroundings idle_link link_events).connection
run_link-IsCalm_example =
    run_link-IsCalm 400 10_000 surroundings idle_link link_events (λ n h. omega arith)
      (tt, (tt, ((omega arith, omega arith, omega arith, omega arith), (tt, (tt, (tt, tt))))))
      (
        (omega arith, omega arith),
        (omega arith, omega arith),
        (omega arith, omega arith),
        tt,
        (refl, refl),
      )

link : Unit {0}
unfolding run_link link_step start_link take_token request_config require_access_token
    configure_link on_connected on_disconnected apply_transport_config connect_web_socket
    ensure_long_poll_loop schedule_reconnect stop_link report_web_socket_issue endpoint_at nth
    dedupe_endpoints dedupe_from enabled_urls filter trim trim_start trim_end is_space has_text any
    starts_with is_empty eq_text
link = tt

-- The timer is set to the least backoff and its jitter.
run_link_runs : (run_link surroundings idle_link link_events).connection.reconnect_delay ≡ some 499
unfolding link Store.set_transport_state
run_link_runs = refl

-- A runtime that was stopped takes the token of the auth store, and opens no socket.
run_link_stopped :
    let c =
      (run_link surroundings idle_link (
        LinkEvent.started (codes "old")
        ∷ LinkEvent.stopped
        ∷ LinkEvent.config_requested (some (codes "new"))
        ∷ LinkEvent.configured config
        ∷ [])).connection in
    (c.access_token ≡ some (codes "new")) × (c.socket ≡ SocketState.closed)
unfolding link Store.set_transport_state
run_link_stopped = (refl, refl)

abbrev device : String → String → DeviceStatus → Device
device id public status = record {
  id = codes id;
  account_id = codes "a1";
  public_device_material = codes public;
  status = status;
}

abbrev pub conversation : Conversation
conversation = record {
  id = codes "c1";
  type = ConversationType.direct;
  title = none;
  created_by_account_id = codes "a1";
  created_at = codes "2024-01-01";
  updated_at = codes "2024-01-01";
  default_ttl_seconds = 0;
  allow_per_message_override = true;
  members =
      (record {
        account_id = codes "a1";
        role = ConversationRole.owner;
        joined_at = codes "2024-01-01";
        is_active = true;
        trusted_devices =
            device "d0" "p0" DeviceStatus.revoked ∷ device "d1" "p1" DeviceStatus.trusted ∷ [];
      })
      ∷ [];
  last_server_sequence = 0;
}

abbrev pub recipients : List RecipientMaterial
recipients = (record { recipient_device_id = codes "d1"; public_key = codes "p1" }) ∷ []

-- The revoked device is left out.
resolve_recipients_runs : resolve_recipients conversation ≡ recipients
unfolding resolve_recipients resolve_members resolve_devices has_text any
resolve_recipients_runs = refl

resolve_recipients-candidates_example :
    (find (for_device (codes "d1")) (resolve_recipients conversation)
      ≡ find (for_device (codes "d1")) (candidates conversation))
    × IsDistinctBy
        (λ (r : RecipientMaterial). r.recipient_device_id)
        (resolve_recipients conversation)
resolve_recipients-candidates_example = resolve_recipients-candidates conversation (codes "d1")

abbrev pub random : Randomness
random = record {
  symmetric_key = 5 ∷ [];
  nonce =
      1 ∷ 2 ∷ 3 ∷ 4 ∷ 5 ∷ 6 ∷ 7 ∷ 8 ∷ 9 ∷ 10 ∷ 11 ∷ 12 ∷ 13 ∷ 14 ∷ 15 ∷ 16 ∷ 17 ∷ 18 ∷ 19 ∷ 20 ∷ 21
      ∷ 22 ∷ 23 ∷ 24 ∷ [];
  seed = λ id. id;
}

abbrev encrypted : EncryptedMessage
encrypted = record {
  algorithm = codes "xchacha20poly1305_ietf+sealedbox";
  crypto_version = 1;
  nonce = random.nonce;
  ciphertext = codes "hi";
  recipients =
      (record {
        recipient_device_id = codes "d1";
        wrapped_key = 5 ∷ [];
        key_algorithm = codes "x25519-sealedbox";
      })
      ∷ [];
}

encrypt_message_runs : encrypt_message sodium random (codes "hi") recipients ≡ some encrypted
unfolding encrypt_message wrap_keys wrap_key
encrypt_message_runs = refl

found_recipient :
    find (for_device (codes "d1")) recipients
    ≡ some (record { recipient_device_id = codes "d1"; public_key = codes "p1" })
unfolding find eq_text
found_recipient = refl

first-IsOpener : IsOpener sodium (codes "p1") (pair "p1" "s1")
unfolding eq_text
first-IsOpener = (codes "p1", (codes "s1", (refl, refl, refl, λ seed m sealed e. sym e)))

second-IsForeign : IsForeign sodium (codes "p1") (pair "p2" "s2")
unfolding eq_text
second-IsForeign seed m sealed pk pk' sk' _ public _ _ =
    subst (λ p. sodium.box_seal_open sealed p sk' ≡ none) (some-injective (codes "p2") pk' public)
      refl

hydrate_message-encrypted_example :
    let read = hydrate_message receiver (carrying encrypted (message "s1" 1)) in
    (read.plaintext ≡ some (record { text = codes "hi"; attachments = []; created_at = none }))
    × (read.decrypt_error ≡ none)
    × (read.is_expired ≡ some false)
unfolding is_past
hydrate_message-encrypted_example =
    hydrate_message-encrypted receiver random recipients
      (record { recipient_device_id = codes "d1"; public_key = codes "p1" }) encrypted
      (message "s1" 1) (codes "hi") (codes "d1")
      (record { text = codes "hi"; attachments = []; created_at = none }) (pair "p2" "s2" ∷ []) []
      (pair "p1" "s1") (λ b. refl) (λ m nonce key. refl) refl refl encrypt_message_runs
      found_recipient refl refl (second-IsForeign, tt) first-IsOpener refl refl
