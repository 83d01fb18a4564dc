-- ===== src/Agents.antt =====
-- internal/agentprotocol: the hub that proxies connect to.
pub mod Connects
pub mod Handshake
pub mod Registry
mod Tests
