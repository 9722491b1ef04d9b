-- ===== src/Relay.antt =====
-- The forwarding relay of impl/go/relay (frame.go, relay.go). A connection leg is the octets that
-- it still delivers and how they end; a turn is what the environment does while one frame is
-- forwarded (cancellation, deadlines, the outcome of the write).

pub mod Forwarding
pub mod Ending
pub mod Passing
use npamp_protocol.Frame.{Frame, FrameError, unmarshal_binary, header_size, max_frame_size, magic}
use npamp_protocol.Prelude.{
  ℕ, zero, suc, ◌+◌, ◌-◌, ◌≤◌, ◌<◌, ◌^◌, ◌%◌, List, [], ◌∷◌, ◌++◌, Option, some, none,
}
use npamp_protocol.Prelude.{
  Bool, true, false, not, ltb, ◌==◌, if◌then◌else◌, bytes_eq, length, take, drop,
}
use npamp_protocol.Prelude.{Result, ok, err, ◌>>=◌, ◌>>◌, fail_if}
use npamp_protocol.Prelude.Bytes.{get_be, slice}

pub data Direction : Type 0 where
  a_to_b b_to_a : Direction

pub record FrameHeader : Type 0 where
  pub raw : List ℕ
  pub version : ℕ
  pub flags : ℕ
  pub type : ℕ
  pub channel : ℕ
  pub seq : ℕ
  pub payload_len : ℕ

-- How the octets of a leg end: the peer closes, or the transport fails.
pub data StreamEnd : Type 0 where
  closed broken : StreamEnd

pub record Source : Type 0 where
  pub octets : List ℕ
  pub ends : StreamEnd

-- `E` is the type of the hook's errors. `stuck` is no Go value: the loop ran out of fuel.
pub data RelayError (E : Type 0) : Type 0 where
  eof unexpected_eof transport bad_magic too_large deadline_error cancelled write_error stuck :
      RelayError E
  malformed : FrameError → RelayError E
  rejected : E → RelayError E

pub data Deadline : Type 0 where
  in_force on_closed_conn failed : Deadline

pub record Turn : Type 0 where
  pub is_cancelled : Bool
  pub read_deadline : Deadline
  pub write_deadline : Deadline
  pub write_stops_at : Option ℕ  -- none: the write succeeds

-- What a hook sees of a frame.
abbrev pub header_of : List ℕ → Frame → FrameHeader
header_of raw f = record {
  raw = take header_size raw;
  version = f.version;
  flags = f.flags;
  type = f.type;
  channel = f.channel;
  seq = f.seq;
  payload_len = length f.payload % 2 ^ 32;
}

abbrev pub HookFunc : Type 0 → Type 0
HookFunc E = Direction → FrameHeader → Result E (Unit {0})

module _ {E : Type 0} where
  short_read : ℕ → StreamEnd → RelayError E
  short_read got broken = transport
  short_read zero closed = eof
  short_read (suc n) closed = unexpected_eof

  -- io.ReadFull of n > 0 octets.
  unfoldable pub read_full : ℕ → Source → Result (RelayError E) (List ℕ × Source)
  unfolding short_read
  read_full n s =
      if ltb (length s.octets) n
      then err (short_read (length s.octets) s.ends)
      else ok (take n s.octets, record s { octets = drop n s.octets })

  -- A payload of which nothing came is cut short, too.
  abbrev pub cut_short : RelayError E → RelayError E
  cut_short eof = unexpected_eof
  cut_short e = e

  abbrev pub mid_frame :
      Result (RelayError E) (List ℕ × Source) → Result (RelayError E) (List ℕ × Source)
  mid_frame (ok r) = ok r
  mid_frame (err e) = err (cut_short e)

  unfoldable pub read_raw_frame : Source → ℕ → Result (RelayError E) (List ℕ × Source)
  unfolding read_full
  read_raw_frame s max_size = do
    (header, s') ← read_full header_size s
    fail_if (not (bytes_eq (take 4 header) magic)) bad_magic
    let payload_len = get_be (slice header 17 21)
    fail_if (ltb max_size (header_size + payload_len)) too_large
    (payload, s'') ←
        (if payload_len == 0 then ok ([], s') else mid_frame (read_full payload_len s'))
    ok (header ++ payload, s'')

  -- SetReadDeadline comes first, so a closed connection is found at a frame boundary.
  unfoldable pub read_deadlined : Deadline → Source → ℕ → Result (RelayError E) (List ℕ × Source)
  unfolding read_raw_frame
  read_deadlined in_force s max_size = read_raw_frame s max_size
  read_deadlined on_closed_conn s max_size = err eof
  read_deadlined failed s max_size = err deadline_error

  -- A nil hook forwards every well-formed frame.
  abbrev pub run_hook :
      Option (HookFunc E) → Direction → FrameHeader → Result (RelayError E) (Unit {0})
  run_hook none dir h = ok tt
  run_hook (some hook) dir h = elim (hook dir h) [ ok u ↦ ok tt | err e ↦ err (rejected e) ]

  abbrev pub parse : List ℕ → Result (RelayError E) Frame
  parse raw = elim (unmarshal_binary raw) [ ok f ↦ ok f | err e ↦ err (malformed e) ]

  -- One round of the loop of forward up to the write: the frame's octets, and what is left to read.
  unfoldable pub accept :
      Option (HookFunc E) → Direction → ℕ → Turn → Source → Result (RelayError E) (List ℕ × Source)
  unfolding read_deadlined
  accept hook dir max_size turn s = do
    fail_if turn.is_cancelled cancelled
    (raw, s') ← read_deadlined turn.read_deadline s max_size
    f ← parse raw
    run_hook hook dir (header_of raw f)
    ok (raw, s')

-- What one direction has written whole, what a failed write left behind, and why it stopped;
-- a clean end of the stream is no error.
pub record Forwarded (E : Type 0) : Type 0 where
  pub sent : List (List ℕ)
  pub cut : List ℕ
  pub outcome : Option (RelayError E)

abbrev pub outcome_of : {E : Type 0} → RelayError E → Option (RelayError E)
outcome_of eof = none
outcome_of e = some e

abbrev pub stop : {E : Type 0} → RelayError E → Forwarded E
stop e = record { sent = []; cut = []; outcome = outcome_of e }

-- writeDeadlined, with the rounds that follow a write that succeeds.
abbrev pub write_then : {E : Type 0} → Deadline → Option ℕ → List ℕ → Forwarded E → Forwarded E
write_then in_force none raw later = record later { sent = raw ∷ later.sent }
write_then in_force (some k) raw later = record {
  sent = [];
  cut = take k raw;
  outcome = some write_error;
}
write_then on_closed_conn stops raw later = record {
  sent = [];
  cut = [];
  outcome = some write_error;
}
write_then failed stops raw later = record { sent = []; cut = []; outcome = some write_error }

module _ {E : Type 0} (hook : Option (HookFunc E)) (dir : Direction) (max_size : ℕ) where
  -- forward, with the environment's turns and fuel; a round takes a header at least.
  unfoldable pub forward : ℕ → (ℕ → Turn) → Source → Forwarded E
  unfolding accept
  forward zero turns s = stop stuck
  forward (suc fuel) turns s = elim (accept hook dir max_size (turns 0) s) [
    | err e ↦ stop e
    | ok (raw, s') ↦
        write_then (turns 0).write_deadline (turns 0).write_stops_at raw
          (forward fuel (λ n. turns (suc n)) s')
  ]

-- Relay.maxFrameSize: 0 stands for the default.
unfoldable pub effective_max : ℕ → ℕ
effective_max n = if n == 0 then max_frame_size else n
