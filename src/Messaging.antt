-- ===== src/Messaging.antt =====
-- The messaging half of the desktop client: apps/client-desktop/src/state/messagingStore.ts and
-- apps/client-desktop/src/services/messaging/.
pub mod Model
pub mod Lifecycle
pub mod Merge
pub mod Dedupe
pub mod Store
pub mod Errors
pub mod Database
pub mod LocalStore
pub mod Flush
pub mod Sync
pub mod SyncLoop
pub mod Connection
pub mod Events
pub mod Links
pub mod Crypto
pub mod Hydrate
pub mod Loading
pub mod Outgoing
pub mod Send
mod Tests
mod RuntimeTests
mod SendTests
