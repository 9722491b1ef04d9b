-- ===== src/Session/Healing.antt =====
-- A re-KEM between two ends of a session (impl/go/sdk/ratchet.go).
pub mod Asking
pub mod Answering
pub mod Healed
