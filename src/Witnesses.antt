-- ===== src/Witnesses.antt =====
-- Runs of the modelled code of impl/go on small inputs, and the theorems applied to them.
mod Frames
mod Codecs
mod Payloads
mod Relays
mod Toys
mod Sessions
mod Keys
mod Endings
mod Healings
mod Bridges
mod Proposals
