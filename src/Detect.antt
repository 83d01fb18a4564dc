-- ===== src/Detect.antt =====
-- internal/detect: trackers that count what a client does within a window.
pub mod Counter
pub mod Paths
pub mod Behavior
pub mod RawQuery
pub mod Forge
pub mod Tables
pub mod Requests
pub mod Score
pub mod Attack
pub mod Crawler
pub mod Tests
