-- ===== src/Tests.antt =====
-- The theorems and the definitions at concrete inputs.
mod Breaker
mod Retry
mod Errors
mod Validator
mod Watcher
mod Health
mod Watching
mod Metrics
mod Client
mod Plugin
mod Targets
mod Calls
mod Process
mod Propagation
mod Handle
mod Locks
