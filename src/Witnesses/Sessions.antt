-- ===== src/Witnesses/Sessions.antt =====
-- Two ends of a session with the toy functions (impl/go/sdk).
use npamp_protocol.Witnesses.Frames.{sample_wire, sample_frame, unmarshal_test}
use npamp_protocol.Witnesses.Toys.{toy, toy-IsAead, client_end, server_end, client-InSync}
use npamp_protocol.Frame.{header_prefix, marshal_header_into, marshal_binary}
use npamp_protocol.KeySchedule.{
  derive_traffic_secret, derive_key_iv, hkdf_expand_label, hkdf_info, traffic_context,
  ratchet_master_tier1, seal_aes_256_gcm, KeyError,
}
use npamp_protocol.Session.Delivery.Queue.{drain-run}
use npamp_protocol.Session.Delivery.Runs.{
  Command, message, rotate, ratchet, messages, perform, run, Drains, Mixed, done, genuine, noise,
}
use npamp_protocol.Session.Drops.{IsNoise, Dropped, receive_wire-Dropped}
use npamp_protocol.Session.Flows.{IsBounded}
use npamp_protocol.Session.Receiving.{receive_wire}
use npamp_protocol.Session.Sending.{send, key_update, ratchet_send}
use npamp_protocol.Session.State.{
  Conn, EpochKeys, derive, advance, current, hold, hold_send, bump, next_root, send_state,
}
use npamp_protocol.Session.Wire.{write_wire, seal_with}
use npamp_protocol.Session.Markers.{key_update_marker, ratchet_gen_marker}
use npamp_protocol.Tlv.{encode}
use npamp_protocol.Prelude.{
  ℕ, ◌≡◌, Result, err, refl, arith, inl, inr, List, [], ◌∷◌, Option, none, some, ok,
}
use npamp_protocol.Prelude.Bytes.{put_be}
use npamp_protocol.Prelude.Maps.{find, put}

abbrev commands : List Command
commands = message 3 0x0102 (7 ∷ []) ∷ rotate 3 ∷ ratchet ∷ message 3 0x0102 (8 ∷ []) ∷ []

abbrev or_nothing : Option (List (List ℕ) × Conn) → List (List ℕ) × Conn
or_nothing none = ([], client_end)
or_nothing (some r) = r

abbrev sample_run : List (List ℕ) × Conn
sample_run = or_nothing (run toy commands client_end)

run_test : run toy commands client_end ≡ some sample_run
unfolding run perform send key_update ratchet_send send_state current find put derive advance
    derive_traffic_secret derive_key_iv hkdf_expand_label hkdf_info traffic_context
    ratchet_master_tier1 write_wire seal_with marshal_binary marshal_header_into header_prefix
    put_be hold hold_send bump next_root key_update_marker ratchet_gen_marker encode
    seal_aes_256_gcm
run_test = refl

all_genuine : (b : Conn) (wires : List (List ℕ)) → Mixed toy b wires wires
all_genuine b [] = done
all_genuine b (wire ∷ wires) = genuine (all_genuine (receive_wire toy wire b).conn wires)

abbrev pub or_new : Result KeyError EpochKeys → EpochKeys
or_new (ok st) = st
or_new (err e) = record { epoch = 0; key = []; iv = []; seq = 1 }

-- The keys of channels 3 and 0, before any frame.
abbrev pub first_keys : EpochKeys
first_keys = or_new (current toy 1 server_end.recv 3)

abbrev pub control_keys : EpochKeys
control_keys = or_new (current toy 1 server_end.recv 0)

pub first_keys_test : current toy 1 server_end.recv 3 ≡ ok first_keys
unfolding current find derive derive_traffic_secret derive_key_iv hkdf_expand_label hkdf_info
    traffic_context put_be
first_keys_test = refl

pub control_keys_test : current toy 1 server_end.recv 0 ≡ ok control_keys
unfolding current find derive derive_traffic_secret derive_key_iv hkdf_expand_label hkdf_info
    traffic_context put_be
control_keys_test = refl

pub first_seq : first_keys.seq ≡ 0
unfolding current find derive derive_traffic_secret derive_key_iv hkdf_expand_label hkdf_info
    traffic_context put_be
first_seq = refl

pub first-IsBounded : IsBounded first_keys
first-IsBounded = client-InSync.agree.bounded 3 first_keys first_keys_test

pub control-IsBounded : IsBounded control_keys
control-IsBounded = client-InSync.agree.bounded 0 control_keys control_keys_test

sample-IsNoise : IsNoise toy server_end sample_wire
sample-IsNoise = record {
  frame = sample_frame;
  st = first_keys;
  parsed = unmarshal_test;
  keys = first_keys_test;
  droppable = inr (inl (λ e. absurd (omega (arith, e, first_seq))));
}

drain-run_example :
    Drains toy sample_run.1 server_end (messages commands) (sample_wire ∷ sample_run.0)
drain-run_example =
    drain-run toy toy-IsAead (noise sample-IsNoise (all_genuine _ sample_run.0)) commands client_end
      sample_run.1 client-InSync
      (
        (
          record { channel_fits = omega arith; type_fits = omega arith; text_fits = omega arith },
          (λ e. absurd (omega (arith, e))),
          (λ e. absurd (omega (arith, e))),
          (λ e. absurd (omega (arith, e))),
        ),
        (
          omega arith,
          (
            tt,
            (
              (
                record {
                  channel_fits = omega arith;
                  type_fits = omega arith;
                  text_fits = omega arith;
                },
                (λ e. absurd (omega (arith, e))),
                (λ e. absurd (omega (arith, e))),
                (λ e. absurd (omega (arith, e))),
              ),
              tt,
            ),
          ),
        ),
      )
      run_test

receive_wire-Dropped_example : Dropped toy server_end (receive_wire toy sample_wire server_end)
receive_wire-Dropped_example = receive_wire-Dropped toy server_end sample_wire refl sample-IsNoise
