-- ===== src/Session/Delivery.antt =====
-- What one end of a session sends arrives at the other (impl/go/sdk/conn.go, keyupdate.go,
-- ratchet.go).
pub mod Accepting
pub mod Sealed
pub mod Rooted
pub mod Steps
pub mod Ratcheting
pub mod Runs
pub mod Queue
