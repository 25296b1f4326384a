-- ===== src/Tests.antt =====
-- Runs on concrete inputs, and the theorems applied to them.
pub mod Handshakes
pub mod Autos
pub mod Blocks
pub mod Requests
pub mod Tunnels
pub mod Views
pub mod Rows
pub mod Saving
pub mod Bars
pub mod Looks
pub mod Guarding
pub mod Chains
pub mod Dialing
pub mod Routing
