-- ===== src/Lib.antt =====
-- N-PAMP, the reference implementation in Go (impl/go): a framed protocol between agents, with
-- typed channels, TLV extensions and deterministic CBOR bodies, and the relay and firewall that
-- pass its frames on.
--
-- A peer marshals a frame (Frame.antt, impl/go/frame.go): a header of 36 octets, with a CRC-32C
-- over the first 21, and a payload. A payload is a list of TLVs (Tlv.antt, impl/go/tlv.go), the
-- body of an operation of a channel or the body of an ERROR frame (ErrorFrame.antt,
-- impl/go/errorframe.go). Bodies are maps in deterministic CBOR (Cbor.antt, impl/go/memory_cbor.go,
-- with cborDecode in Cbor/Decoder.antt), checked against the schema of their frame type
-- (Bodies.antt and its children, impl/go/memory_bodies.go, settlement_bodies.go,
-- workflow_bodies.go, interaction_bodies.go, knowledge_bodies.go, telemetry_bodies.go,
-- capability_bodies.go, immune_bodies.go, stream_bodies.go and commerce_bodies.go). A Bridge
-- payload is an envelope TLV, an optional safety label and a foreign message (Bridge.antt,
-- impl/go/bridge.go and bridge_bodies.go).
--
-- A session (Session.antt and its children, impl/go/sdk) seals its frames with keys of a channel, a
-- direction and an epoch. Session/State.antt has Conn and the keys (conn.go), Session/Wire.antt the
-- sealed frames and the framing on a stream (conn.go), Session/Markers.antt the payloads of control
-- frames (keyupdate.go, ratchet.go), Session/Sending.antt Send, KeyUpdate, RatchetSend, ReKEM and
-- the replies (conn.go, keyupdate.go, ratchet.go), Session/Closing.antt the close (close.go),
-- Session/Handlers.antt and Session/Receiving.antt Recv (conn.go, keyupdate.go, ratchet.go). It
-- counts the acknowledgements that it waits for (PendingAck.antt, impl/go/sdk/pendingack.go). Its
-- keys come from the key schedule (KeySchedule.antt, impl/go/keyschedule.go, aead.go,
-- transcript.go) and the hybrid KEM (Kem.antt, impl/go/kem.go). The cryptographic packages of the
-- Go library are a parameter (Crypto.antt), with what their documentation promises as hypotheses;
-- Witnesses/Toys.antt has functions that satisfy them. A relay reads raw frames from one leg,
-- parses each, asks a hook and writes the same octets to the other leg (Relay.antt, impl/go/relay);
-- the firewall is a relay whose hook joins the registry validator with a policy (Validator.antt,
-- impl/go/wirevalidator and impl/go/firewall).
--
-- How the code is read. Octets and fixed-width integers are numbers; what Go cuts to a width is cut
-- with a remainder, and a property says that its octets are below 256 where that matters. A Go map
-- is an association list, nil and empty being the same; a slice is a list; an error is a
-- constructor that keeps the sentinel and, for a rejected body, the reason, but not the text. A
-- method that writes through its receiver returns the new value. A function named marshalHeaderInto
-- is here marshal_header_into, and so on. CRC-32C and the big-endian integers of the Go library are
-- written out (Frame/Crc.antt, Prelude/Bytes.antt). In the relay a leg is the octets that are still
-- to come and how they end, and a turn is what the environment does in one round: cancellation,
-- deadlines, a write that stops half-way. A hook is a parameter. In the session an operation takes
-- the outcome of its write and returns the state, the octets written and the error; the locks
-- serialise the operations of one direction, so an operation is one function, and a reply that runs
-- on a goroutine of its own is a task of the round that starts it. Random draws are arguments.
--
-- Fuel. The loop of DecodeTLVs runs on the length of the buffer, since a round takes four octets or
-- more. forward runs on any number above the length of the source, since a round takes a header of
-- 36 octets or more; recvLocked runs on one more than that length, for the same reason. cborDecode
-- needs none: its recursion is on the nine levels that the source allows, and its loops are on the
-- counts that they read.
--
-- Not modelled: the handshake and dialling; the start and the join of a relay's two directions; the
-- loading of registries; proxies, commands, key files and the packages of impl/go/ecosystem.
-- Erasing intermediate secrets, timers and the accessors of a connection are left out, and so are
-- names and messages for people.
pub mod Prelude
pub mod Frame
pub mod Tlv
pub mod Cbor
pub mod Bodies
pub mod ErrorFrame
pub mod PendingAck
pub mod Relay
pub mod Session
pub mod Validator
pub mod Bridge
pub mod Crypto
pub mod KeySchedule
pub mod Kem
pub mod Witnesses
