-- ===== src/AddressLists.antt =====
-- internal/blocklist and internal/allowlist: sets of addresses, hosts, User-Agents and headers, read
-- from files.
pub mod Lines
pub mod Blocklist
pub mod Allowlist
pub mod Hosts
pub mod Reload
mod Tests
