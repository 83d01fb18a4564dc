-- ===== src/Protect.antt =====
-- internal/protect/protect.go: limits, in-flight slots, strikes and bans.
pub mod Config
pub mod Guard
pub mod Bans
pub mod Slots
pub mod Interleaved
pub mod Tests
