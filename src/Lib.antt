-- ===== src/Lib.antt =====
-- Verification of the desktop client of the secure messenger (apps/client-desktop, TypeScript).
-- Paths below are from apps/client-desktop/src/, unless they start with packages/.
--
-- The parts of the program. The messaging store (state/messagingStore.ts) holds conversations and
-- messages; the messaging runtime fills it from the relay server, and the views read it. The plugin
-- runtime (services/plugins/runtime.ts) runs each enabled plugin in a sandboxed frame, answers what
-- the plugin asks over `postMessage`, and keeps the plugin store (state/pluginStore.ts) up to date.
-- A plugin sees the messaging store only through two bridge methods.
--
-- The files.
--   Common             tests, lists, texts, dictionaries, JSON values, a stable sort, numbers
--   Messaging/Model    the DTOs of packages/protocol/src/index.ts, and LocalMessage
--   Messaging/Lifecycle services/messaging/lifecycle.ts, and its copy in state/messagingStore.ts
--   Messaging/Merge    ensureMessageDefaults, getMessageIdentityKey, mergeMessage
--   Messaging/Dedupe   dedupeAndSortMessages; its children hold the proofs on order and content
--   Messaging/Store    useMessagingStore: one function for each action; Store/Actions is the union
--                      of the actions and their runs, the other children hold the proofs
--   Messaging/Errors   services/messaging/errorModel.ts, and the reading of errors in
--                      services/apiClient.ts
--   Messaging/Database the tables and SQL commands of ../src-tauri/src/main.rs
--   Messaging/LocalStore services/messaging/localEncryptedStore.ts over these tables
--   Messaging/Crypto   services/messaging/cryptoProvider.ts
--   Messaging/Hydrate  hydrateMessage and resolveRecipients of services/messaging/runtime.ts
--   Messaging/Flush    its flushOutbox and refreshOutbox
--   Messaging/Loading  its loadMessages, refreshConversations, hydrateFromLocalStore, downloadAttachment
--   Messaging/Outgoing, Messaging/Send
--                      its sendMessage, createOptimisticMessage and uploadAttachments
--   Messaging/Sync     its syncOnce and applySyncBatch, with the answer of the relay server
--                      (apps/relay-server: SyncPoll, syncFromCursor, ListDeliverableMessagesSince)
--   Messaging/SyncLoop its requestSync, as a machine on requests and ends of polls
--   Messaging/Connection, Messaging/Events, Messaging/Links
--                      its transport: endpoints and backoff, what each event does, and the machine
--                      of start, stop, socket, timer and long poll loop
--   SecureStorage      services/secureStorage.ts over the keyring commands of main.rs
--   Identity           services/identity.ts: the key pairs of the device and their rotation
--   Plugins/Capability services/plugins/capabilities.ts
--   Plugins/Pattern    the regular expressions of manifest.ts and runtime.ts
--   Plugins/Manifest   services/plugins/manifest.ts
--   Plugins/Store      usePluginStore: one function for each action
--   Plugins/Host       the state that the plugin runtime works on, teardownPlugin, failPlugin,
--                      postToPlugin, syncPluginRuntimeCollections
--   Plugins/Bridge     the cases of processBridgeRequest on commands, panels and storage
--   Plugins/Requests   the other cases, the switch, and the checks before it; Requests/Effect says
--                      what one request may change, as a relation between hosts, and the other
--                      children hold the proofs
--   Plugins/Window     findInstanceForMessage and handleWindowMessage: tokens, origins, dispatch
--   Plugins/Runtime    disable, install, executeCommand and emitEvent
--   Plugins/Enable     enable, cut at its two waits, and createActiveInstance
--   Social             useSocialStore of state/socialStore.ts
--   Updater            useUpdaterStore of state/updaterStore.ts, and runs of its actions
--   Logger             services/logger.ts: which entries are written and what is redacted
--   Tests, RuntimeTests, SendTests, WindowTests runs on small inputs
--
-- How the code is read. A text is the list of its UTF-16 code units, as JavaScript counts them. A
-- field that may be null or absent is an Option. Numbers that the server sends are natural numbers;
-- the argument of markConversationRead is a Number, which may also be negative or not finite. A Map
-- or an object used as one is an association list in the order of insertion; `localStorage.key`
-- promises no order, and the order of the list stands for the one that the browser has. Array.sort
-- is a stable insertion sort. `now` is what `new Date().toISOString()` returns, `fresh` what
-- `randomID()` returns, and both are arguments. What the browser decides is the record Platform of
-- Plugins/Bridge: whether `localStorage.setItem` has room, and what `String(value)` is. The length of
-- the encoded request is a field of the request, `none` where JSON.stringify throws. The fields of an
-- active instance are changed in place; here the changed instance is put back under its id. All
-- loops are over finite lists and end by structural recursion: there is no fuel. A loop that waits
-- between its turns (requestSync, flushOutbox, the long poll loop, the reconnections) is a machine that takes one
-- step for each event.
--
-- The messaging runtime works on a Client, the local database and the messaging store. What it gets
-- from outside is a record of its own: Environment of Messaging/Flush (the answers of the server, the
-- session, the codecs that encrypt one payload), Receiver of Messaging/Hydrate (the clock, the key
-- ring), Surroundings of Messaging/Links (the random draw, the settings), Sodium of Messaging/Crypto
-- (libsodium), Machine of SecureStorage (the keyring of the system) and Formats of Identity (JSON and
-- the digest). The tables answer every command. Where the server waits for messages, the model is its
-- last query, and what it holds at that time is an argument. An endpoint is a URL that the browser
-- accepts. What a theorem on encryption needs of libsodium is stated as a hypothesis:
-- base64 is undone, what is encrypted under a key opens under it, and a sealed box opens for its key
-- pair only.
--
-- The access token of Environment is what requireAccessToken returned; the token that the runtime keeps,
-- and takes from the auth store, is part of the transport. A Client has a record of the items that
-- were sent. String(value) on a value that a plugin stores is taken to return.
--
-- What is not modelled: of the messaging runtime, the turns of the long poll loop that succeed and the composition of start from its steps; the
-- sandbox document of a plugin and the discovery of plugins; the API clients, which send one request
-- each; sessions, the server connection, the settings and the service behind the updater's store. The
-- views only render. Of the relay server, a Go program, only what answers a poll is modelled.
mod Common
pub mod Messaging
pub mod Plugins
pub mod Updater
pub mod SecureStorage
pub mod Identity
pub mod Social
pub mod Logger
