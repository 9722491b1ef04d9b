-- ===== src/Witnesses/Endings.antt =====
-- Single frames of a session with the toy functions, and its end (impl/go/sdk).
use npamp_protocol.Witnesses.Toys.{toy, toy-IsAead, client_end, server_end, server-InSync}
use npamp_protocol.Witnesses.Sessions.{
  or_new, first_keys, first_keys_test, first_seq, first-IsBounded, control_keys, control_keys_test,
  control-IsBounded,
}
use npamp_protocol.Frame.{header_prefix, marshal_header_into, marshal_binary}
use npamp_protocol.KeySchedule.{seal_aes_256_gcm}
use npamp_protocol.Session.Closed.{sending, operate, handed_on}
use npamp_protocol.Session.Default.{recv-unexpected}
use npamp_protocol.Session.Reporting.{IsReport}
use npamp_protocol.Relay.{Source, closed}
use npamp_protocol.Prelude.{bytes_eq, false, ok}
use npamp_protocol.Prelude.Maps.{find}
use npamp_protocol.KeySchedule.{
  derive_traffic_secret, derive_key_iv, hkdf_expand_label, hkdf_info, traffic_context,
}
use npamp_protocol.Session.Drops.{Dropped}
use npamp_protocol.Session.Handlers.{deliver}
use npamp_protocol.Session.Interrupted.{send-send_cut}
use npamp_protocol.Session.Life.{begin, operated, arrived, IsDead, Life-IsDead}
use npamp_protocol.Session.Receiving.{receive_wire, recv}
use npamp_protocol.Session.Replay.{receive_wire-again}
use npamp_protocol.Session.Sealing.{IsSealed, seal_with-IsSealed}
use npamp_protocol.Session.Sending.{send}
use npamp_protocol.Session.State.{
  Conn, EpochKeys, current, derive, write_failed, unexpected_type, zeroize,
}
use npamp_protocol.Session.Wire.{whole, stops_at, seal_with, read_wire}
use npamp_protocol.Prelude.{ℕ, ◌≡◌, refl, arith, List, [], ◌∷◌, ◌++◌, take, some, true, err}
use npamp_protocol.Prelude.Bytes.{put_be, get_be}

abbrev sealed_wire : List ℕ
sealed_wire = seal_with toy first_keys 3 0x0102 (7 ∷ [])

seal_with-IsSealed_example : IsSealed toy first_keys 3 0x0102 (7 ∷ []) sealed_wire
seal_with-IsSealed_example =
    seal_with-IsSealed toy toy-IsAead first_keys 3 0x0102 (7 ∷ []) first-IsBounded
      (record { channel_fits = omega arith; type_fits = omega arith; text_fits = omega arith })

receive_wire-again_example :
    ((receive_wire toy sealed_wire server_end).action ≡ some (deliver 3 0x0102 (7 ∷ [])))
    × Dropped toy
        (receive_wire toy sealed_wire server_end).conn
        (receive_wire toy sealed_wire (receive_wire toy sealed_wire server_end).conn)
receive_wire-again_example =
    receive_wire-again toy server_end first_keys 3 0x0102 (7 ∷ []) sealed_wire refl first-IsBounded
      first_keys_test seal_with-IsSealed_example (λ e. absurd (omega (arith, e)))
      (λ e. absurd (omega (arith, e))) (λ e. absurd (omega (arith, e)))

-- A PING on Control.
abbrev ping_wire : List ℕ
ping_wire = seal_with toy control_keys 0 0x0001 []

-- The keys that the server seals its own frames on Control with.
abbrev reply_keys : EpochKeys
reply_keys = or_new (current toy 1 server_end.send 0)

reply_keys_test : current toy 1 server_end.send 0 ≡ ok reply_keys
unfolding current find derive derive_traffic_secret derive_key_iv hkdf_expand_label hkdf_info
    traffic_context put_be
reply_keys_test = refl

-- The PING and the first octet of another frame.
abbrev ping_stream : Source
ping_stream = record { octets = ping_wire ++ (0x4e ∷ []); ends = closed }

abbrev after_ping : Source
after_ping = record { octets = 0x4e ∷ []; ends = closed }

ping_stream_test : read_wire false ping_stream ≡ ok (ping_wire, after_ping)
unfolding read_wire current find derive derive_traffic_secret derive_key_iv hkdf_expand_label
    hkdf_info traffic_context seal_with marshal_binary marshal_header_into header_prefix put_be
    seal_aes_256_gcm bytes_eq get_be
ping_stream_test = refl

recv-unexpected_example :
    ((recv toy false (stops_at 20) ping_stream server_end).0.rest ≡ after_ping)
    × ((recv toy false (stops_at 20) ping_stream server_end).1.1 ≡ err unexpected_type)
    × ((recv toy false (stops_at 20) ping_stream server_end).1.0.conn.closed ≡ true)
    × IsReport toy reply_keys 1 (recv toy false whole ping_stream server_end).1.0.wire
recv-unexpected_example =
    recv-unexpected toy toy-IsAead server_end control_keys reply_keys 0x0001 [] ping_wire
      ping_stream after_ping refl refl control_keys_test reply_keys_test
      (server-InSync.agree.bounded 0 reply_keys reply_keys_test)
      (seal_with-IsSealed toy toy-IsAead control_keys 0 0x0001 [] control-IsBounded
        (record { channel_fits = omega arith; type_fits = omega arith; text_fits = omega arith }))
      (record {
        no_key_update = λ e. absurd (omega (arith, e));
        no_key_update_ack = λ e. absurd (omega (arith, e));
        no_ratchet = λ e. absurd (omega (arith, e));
        no_ratchet_ack = λ e. absurd (omega (arith, e));
        no_rekem = λ e. absurd (omega (arith, e));
        no_rekem_ack = λ e. absurd (omega (arith, e));
        no_close = λ e. absurd (omega (arith, e));
        no_close_ack = λ e. absurd (omega (arith, e));
        no_error = λ e. absurd (omega (arith, e));
      })
      ping_stream_test (stops_at 20)

send-send_cut_example :
    ((send toy (stops_at 40) 3 0x0102 (7 ∷ []) client_end).wire ≡ take 40 sealed_wire)
    × ((send toy (stops_at 40) 3 0x0102 (7 ∷ []) client_end).failure ≡ some write_failed)
    × ((send toy whole 3 0x0102
          (8 ∷ [])
          (send toy (stops_at 40) 3 0x0102 (7 ∷ []) client_end).conn).wire
        ≡ seal_with toy first_keys 3 0x0102 (8 ∷ []))
unfolding seal_with marshal_binary marshal_header_into header_prefix put_be seal_aes_256_gcm
send-send_cut_example =
    send-send_cut toy 3 first_keys client_end refl first_keys_test (omega (arith, first_seq)) 0x0102
      0x0102 (7 ∷ []) (8 ∷ []) (omega arith) (omega arith) 40

abbrev ended : Conn
ended = zeroize client_end

Life-IsDead_example :
    IsDead toy
      ([] ++ (operate toy (sending 3 0x0102 (7 ∷ [])) whole ended).wire)
      ([]
        ++ handed_on
            (receive_wire toy sealed_wire
              (operate toy (sending 3 0x0102 (7 ∷ [])) whole ended).conn).action)
      (receive_wire toy sealed_wire (operate toy (sending 3 0x0102 (7 ∷ [])) whole ended).conn).conn
unfolding zeroize
Life-IsDead_example =
    Life-IsDead toy refl
      (arrived sealed_wire (operated (sending 3 0x0102 (7 ∷ [])) whole (begin ended)))
