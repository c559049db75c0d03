-- ===== src/Plugin.antt =====
-- apollo.go, config.go, lifecycle_context.go and cleanup.go: the plugin.
pub mod State
pub mod Values
pub mod Entries
pub mod Cache
pub mod Reads
pub mod Setup
pub mod Startup
pub mod Cleanup
pub mod Entry
pub mod Phases
pub mod Life
pub mod Reload
pub mod Sources
pub mod Targets
pub mod Health
pub mod Loading
pub mod Watching
pub mod Served
pub mod FirstRead
pub mod Propagation
pub mod Traffic
pub mod Keeps
pub mod Calls
pub mod Provenance
