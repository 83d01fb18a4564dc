-- ===== src/Challenge.antt =====
-- internal/challenge/challenge.go: proof-of-work challenges.
pub mod Nonces
pub mod Token
pub mod Pow
pub mod Tests
