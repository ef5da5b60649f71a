-- ===== src/Server.antt =====
-- custom-endpoint/main.cc, as it is built: the traffic monitor and the endpoint behind it.
pub mod Target
pub mod Monitor
pub mod Multiplier
pub mod Fresh
pub mod Bridge
pub mod Reachable
pub mod Adapter
pub mod Endpoint
pub mod Startup
mod Tests
