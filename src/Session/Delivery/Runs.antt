-- ===== src/Session/Delivery/Runs.antt =====
-- A run of calls at one end against a queue of messages (impl/go/sdk/conn.go, keyupdate.go,
-- ratchet.go).
use npamp_protocol.Crypto.{Crypto}
use npamp_protocol.Session.Delivery.Steps.{InSync}
use npamp_protocol.Session.Drops.{IsNoise}
use npamp_protocol.Session.Handlers.{Action, deliver, fail, emit_error, close_ack, peer_error}
use npamp_protocol.Session.Receiving.{receive_wire}
use npamp_protocol.Session.Sealing.{FitsFrame}
use npamp_protocol.Session.Sending.{
  Sent, send, key_update, ratchet_send, chan_control, frame_key_update, frame_key_update_ack,
}
use npamp_protocol.Session.State.{Conn, ConnError}
use npamp_protocol.Session.Wire.{whole}
use npamp_protocol.Prelude.{ℕ, ◌^◌, ◌<◌, ◌≡◌, ◌≢◌, arith}
use npamp_protocol.Prelude.{List, [], ◌∷◌, Option, none, some}

-- A call at the sending end.
pub data Command : Type 0 where
  message : ℕ → ℕ → List ℕ → Command
  rotate : ℕ → Command
  ratchet : Command

abbrev pub Message : Type 0
Message = ℕ × ℕ × List ℕ

-- A message is of an application: not on Control, and no key update.
abbrev pub IsCommand : Command → Type 0
IsCommand (message channel ft payload) =
    FitsFrame channel ft payload
    × (channel ≢ chan_control)
    × (ft ≢ frame_key_update)
    × (ft ≢ frame_key_update_ack)
IsCommand (rotate channel) = channel < 2 ^ 16
IsCommand ratchet = Unit {0}

-- The queue: the messages, in order.
unfoldable pub messages : List Command → List Message
messages [] = []
messages (message channel ft payload ∷ ks) = (channel, ft, payload) ∷ messages ks
messages (rotate channel ∷ ks) = messages ks
messages (ratchet ∷ ks) = messages ks

abbrev pub if_done :
    Option ConnError → List ℕ → Option (List (List ℕ) × Conn) → Option (List (List ℕ) × Conn)
if_done none wire (some (wires, a)) = some (wire ∷ wires, a)
if_done none wire none = none
if_done (some e) wire later = none

abbrev pub collect : Option Action → Conn → List Message × Conn → List Message × Conn
collect none conn later = later
collect (some (deliver channel ft payload)) conn (ms, b) = ((channel, ft, payload) ∷ ms, b)
collect (some (fail e)) conn later = ([], conn)
collect (some (emit_error code e)) conn later = ([], conn)
collect (some close_ack) conn later = ([], conn)
collect (some (peer_error e)) conn later = ([], conn)

module _ (c : Crypto) where
  unfoldable pub perform : Command → Conn → Sent
  perform (message channel ft payload) a = send c whole channel ft payload a
  perform (rotate channel) a = key_update c whole channel a
  perform ratchet a = ratchet_send c whole a

  -- The frames of a run in which no call reports an error, and the state after it.
  unfoldable pub run : List Command → Conn → Option (List (List ℕ) × Conn)
  unfolding perform
  run [] a = some ([], a)
  run (k ∷ ks) a =
      let s = perform k a in let later = run ks s.conn in if_done s.failure s.wire later

  -- What the receiver hands to its caller, up to the first frame with another reaction.
  unfoldable pub drain : List (List ℕ) → Conn → List Message × Conn
  drain [] b = ([], b)
  drain (wire ∷ wires) b =
      let r = receive_wire c wire b in
      let later = drain wires r.conn in collect r.action r.conn later

  -- Later frames of a run, and the call that wrote the first.
  pub record Ran (k : Command) (ks : List Command) (a : Conn) (wires : List (List ℕ)) (a' : Conn)
      : Type 0 where
    pub fine : (perform k a).failure ≡ none
    pub rest : List (List ℕ)
    pub ran : run ks (perform k a).conn ≡ some (rest, a')
    pub frames : wires ≡ (perform k a).wire ∷ rest

  pub run-Ran :
      (k : Command) (ks : List Command) (a : Conn) (wires : List (List ℕ)) (a' : Conn)
      → run (k ∷ ks) a ≡ some (wires, a')
      → Ran k ks a wires a'
  unfolding run
  run-Ran k ks a wires a' h = ground arith

  pub run_nil :
      (a : Conn) (wires : List (List ℕ)) (a' : Conn)
      → run [] a ≡ some (wires, a')
      → ([] ≡ wires) × (a ≡ a')
  unfolding run
  run_nil a wires a' h = ground arith

  -- The receiver has handed on the messages of the queue, and is in step with the sender.
  pub record Drains (a b : Conn) (ms : List Message) (wires : List (List ℕ)) : Type 0 where
    pub after : Conn
    pub handed : drain wires b ≡ (ms, after)
    pub sync : InSync c a after

-- The frames that arrive at a receiver: those of the sender in order, and noise between them.
pub data Mixed (c : Crypto) : Conn → List (List ℕ) → List (List ℕ) → Type 0 where
  done : {b : Conn} → Mixed c b [] []
  genuine :
      {b : Conn} {wire : List ℕ} {sent arriving : List (List ℕ)}
      → Mixed c (receive_wire c wire b).conn sent arriving
      → Mixed c b (wire ∷ sent) (wire ∷ arriving)
  noise :
      {b : Conn} {wire : List ℕ} {sent arriving : List (List ℕ)}
      → IsNoise c b wire
      → Mixed c (receive_wire c wire b).conn sent arriving
      → Mixed c b sent (wire ∷ arriving)
