-- ===== src/Semantic.antt =====
-- internal/semantic: the decoding of payloads (Decoders, Decode), the scores of the attack families
-- (Analyze) and the engine that inspects a request (Engine).
pub mod Decoders
pub mod Decode
pub mod Analyze
pub mod Engine
pub mod Chain
pub mod Candidates
pub mod Verdict
pub mod Reasons
mod Tests
