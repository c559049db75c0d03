-- ===== src/Watcher.antt =====
-- watcher_adapter.go: the watcher of one namespace, with its poll loop in a goroutine of its own.
pub mod State
pub mod Loop
pub mod System
pub mod Delivery
pub mod Stopping
pub mod Round
pub mod Restart
