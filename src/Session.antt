-- ===== src/Session.antt =====
-- A session: the connection of impl/go/sdk (conn.go, keyupdate.go, ratchet.go, close.go). Each
-- operation is a function on the state of one endpoint; what it writes and the outcome of the write
-- are explicit.
pub mod State
pub mod Wire
pub mod Markers
pub mod MarkerRoundTrip
pub mod Sending
pub mod Closing
pub mod Handlers
pub mod Receiving
pub mod Flows
pub mod Sealing
pub mod Drops
pub mod Replay
pub mod Interrupted
pub mod Reporting
pub mod Default
pub mod Healing
pub mod Closed
pub mod Life
pub mod Delivery
