-- ===== src/Client.antt =====
-- client.go: the HTTP client of Apollo's meta, config and notification services. What net/http,
-- net/url and encoding/json do is the interface `Http`.
pub mod Servers
pub mod State
pub mod Requests
pub mod Lines
pub mod Laws
pub mod Values
pub mod Sends
