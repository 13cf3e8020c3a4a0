-- ===== src/Plugins.antt =====
-- The plugin half of the desktop client: apps/client-desktop/src/services/plugins/ and
-- apps/client-desktop/src/state/pluginStore.ts.
pub mod Capability
pub mod Pattern
pub mod Manifest
pub mod Store
pub mod Host
pub mod Bridge
pub mod Requests
pub mod Window
pub mod Runtime
pub mod Enable
mod Tests
mod WindowTests
