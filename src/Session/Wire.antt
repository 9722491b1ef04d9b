-- ===== src/Session/Wire.antt =====
-- The record layer and the framing of impl/go/sdk/conn.go: sealed frames, and frames on a stream.
use npamp_protocol.Crypto.{Crypto}
use npamp_protocol.Frame.{
  Frame, flag_enc, header_prefix, marshal_binary, header_size, max_frame_size, magic,
}
use npamp_protocol.KeySchedule.{
  KeyDirection, KeyError, open_failed, aead_aes_256_gcm, derive_traffic_secret, derive_key_iv,
  seal_aes_256_gcm, open_aes_256_gcm,
}
use npamp_protocol.Relay.{StreamEnd, Source, closed, broken}
use npamp_protocol.Session.State.{
  EpochKeys, ConnError, deadline_not_set, frame_too_short, frame_too_big, write_failed, read_eof,
  read_unexpected_eof, read_failed, not_npam,
}
use npamp_protocol.Prelude.{ℕ, zero, suc, ◌+◌, ◌%◌, ◌^◌, List, [], ◌++◌, length, take, drop}
use npamp_protocol.Prelude.{Option, none, some, Bool, not, ltb, bytes_eq, if◌then◌else◌}
use npamp_protocol.Prelude.{Result, ok, err, ◌>>=◌, ◌>>◌, fail_if}
use npamp_protocol.Prelude.Bytes.{get_be, slice}

-- `npamp.Frame{Flags: FlagENC, ...}`: the version and the payload are not set.
abbrev pub sealed_frame : ℕ → ℕ → ℕ → Frame
sealed_frame channel ft seq = record {
  version = 0;
  flags = flag_enc;
  type = ft;
  channel = channel;
  seq = seq;
  payload = [];
}

abbrev pub or_open_failed : Option (List ℕ) → Result KeyError (List ℕ)
or_open_failed none = err open_failed
or_open_failed (some pt) = ok pt

module _ (c : Crypto) where
  -- sealWith; the tag has 16 octets, and the header's prefix is the additional data.
  unfoldable pub seal_with : EpochKeys → ℕ → ℕ → List ℕ → List ℕ
  seal_with st channel ft plaintext =
      let f = sealed_frame channel ft st.seq in
      let aad = header_prefix f ((length plaintext + 16) % 2 ^ 32) in
      let sealed = seal_aes_256_gcm c st.key st.iv st.seq aad plaintext in
      (marshal_binary (record f { payload = sealed })).1

  unfoldable pub open_with : EpochKeys → Frame → Option (List ℕ)
  open_with st f =
      open_aes_256_gcm c st.key st.iv f.seq (header_prefix f (length f.payload % 2 ^ 32)) f.payload

  -- deriveKeyIV
  unfoldable pub base_key_iv : List ℕ → KeyDirection → ℕ → ℕ → Result KeyError (List ℕ × List ℕ)
  base_key_iv base_secret dir channel p = do
    ts ← derive_traffic_secret c base_secret dir 0 aead_aes_256_gcm channel p
    derive_key_iv c ts p

  -- sealFrame and openFrame, for the frames of the handshake
  unfoldable pub seal_frame :
      List ℕ → KeyDirection → ℕ → ℕ → ℕ → List ℕ → ℕ → Result KeyError (List ℕ)
  unfolding base_key_iv
  seal_frame base_secret dir channel seq ft plaintext p = do
    (key, iv) ← base_key_iv base_secret dir channel p
    let f = sealed_frame channel ft seq
    let aad = header_prefix f ((length plaintext + 16) % 2 ^ 32)
    let sealed = seal_aes_256_gcm c key iv seq aad plaintext
    ok (marshal_binary (record f { payload = sealed })).1

  unfoldable pub open_frame : Frame → List ℕ → KeyDirection → ℕ → Result KeyError (List ℕ)
  unfolding base_key_iv
  open_frame f base_secret dir p = do
    (key, iv) ← base_key_iv base_secret dir f.channel p
    let aad = header_prefix f (length f.payload % 2 ^ 32)
    or_open_failed (open_aes_256_gcm c key iv f.seq aad f.payload)

-- What the environment does with a write.
pub data Write : Type 0 where
  whole no_deadline : Write
  stops_at : ℕ → Write

-- `w.Write`: the octets that went out, and the error.
abbrev pub written : Write → List ℕ → List ℕ × Option ConnError
written whole frame = (frame, none)
written no_deadline frame = ([], some deadline_not_set)
written (stops_at k) frame = (take k frame, some write_failed)

unfoldable pub write_frame : Write → List ℕ → List ℕ × Option ConnError
write_frame w frame =
    if ltb (length frame) header_size
    then ([], some frame_too_short)
    else if ltb max_frame_size (length frame)
    then ([], some frame_too_big)
    else written w frame

-- writeWire: SetWriteDeadline comes first.
unfoldable pub write_wire : Write → List ℕ → List ℕ × Option ConnError
unfolding write_frame
write_wire no_deadline wire = ([], some deadline_not_set)
write_wire whole wire = write_frame whole wire
write_wire (stops_at k) wire = write_frame (stops_at k) wire

abbrev pub short_read_error : ℕ → StreamEnd → ConnError
short_read_error got broken = read_failed
short_read_error zero closed = read_eof
short_read_error (suc n) closed = read_unexpected_eof

-- An error of io.CopyN, which reports the end of the stream at any octet as io.EOF.
abbrev pub copy_error : StreamEnd → ConnError
copy_error closed = read_eof
copy_error broken = read_failed

-- An error comes with what is left of the stream: io.ReadFull and io.CopyN have taken what there was.
unfoldable pub read_frame : Source → Result (ConnError × Source) (List ℕ × Source)
read_frame s = do
  let drained = record s { octets = [] }
  fail_if (ltb (length s.octets) header_size) (short_read_error (length s.octets) s.ends, drained)
  let header = take header_size s.octets
  let rest = drop header_size s.octets
  fail_if (not (bytes_eq (take 4 header) magic)) (not_npam, record s { octets = rest })
  let payload_len = get_be (slice header 17 21)
  fail_if (ltb max_frame_size (header_size + payload_len))
      (frame_too_big, record s { octets = rest })
  fail_if (ltb (length rest) payload_len) (copy_error s.ends, drained)
  ok (header ++ take payload_len rest, record s { octets = drop payload_len rest })

-- readWire, and whether SetReadDeadline fails
unfoldable pub read_wire : Bool → Source → Result (ConnError × Source) (List ℕ × Source)
unfolding read_frame
read_wire deadline_fails s = fail_if deadline_fails (deadline_not_set, s) >> read_frame s
