-- ===== src/Session/State.antt =====
-- The state of a connection: Conn and epochKeys of impl/go/sdk/conn.go, with the keys of a channel
-- and direction, their rotation, and the end of a connection. The locks, which serialise the calls
-- of one direction, have no counterpart: an operation is a function on the state.
use npamp_protocol.Crypto.{Crypto}
use npamp_protocol.Frame.{FrameError}
use npamp_protocol.Kem.{KemClient, KemError}
use npamp_protocol.KeySchedule.{
  KeyDirection, KeyError, aead_aes_256_gcm, derive_traffic_secret, derive_key_iv,
}
use npamp_protocol.PendingAck.{KeyUpdateAcks, Generations}
use npamp_protocol.Prelude.{ℕ, ◌+◌, ◌%◌, ◌^◌, List, [], ◌∷◌, replicate, length, Option, none, some}
use npamp_protocol.Prelude.{Bool, true, if◌then◌else◌, Result, ok, err, ◌>>=◌, ◌>>◌, fail_if}
use npamp_protocol.Prelude.Maps.{find, put}

pub record EpochKeys : Type 0 where
  pub epoch : ℕ  -- uint64
  pub key : List ℕ  -- [32]byte
  pub iv : List ℕ  -- [12]byte
  pub seq : ℕ  -- uint64

-- The fields of one direction: masterSend, genSend, sendDir and sendKeys, or those for receiving.
pub record Flow : Type 0 where
  pub master : List ℕ
  pub gen : ℕ
  pub dir : KeyDirection
  pub keys : List (ℕ × EpochKeys)

pub record PendingRekem : Type 0 where
  pub client : KemClient
  pub kem_share : List ℕ
  pub target_gen : ℕ

-- `closing` holds while closeAckCh is there; `shut` is closeOnce, done.
pub record Conn : Type 0 where
  pub profile : ℕ
  pub send : Flow
  pub recv : Flow
  pub pending_rekem : Option PendingRekem
  pub pending_ku_ack : KeyUpdateAcks
  pub pending_mr_ack : Generations
  pub dropped_unauthenticated : ℕ
  pub dropped_out_of_sequence : ℕ
  pub closing : Bool
  pub closed : Bool
  pub shut : Bool

-- The errors of the package. `stuck` is no Go value: the loop ran out of fuel.
pub data ConnError : Type 0 where
  closed_conn peer_closed sequence_exhausted : ConnError
  deadline_not_set frame_too_short frame_too_big write_failed : ConnError
  read_eof read_unexpected_eof read_failed not_npam stuck : ConnError
  derive_failed : KeyError → ConnError
  malformed_frame : FrameError → ConnError
  out_of_order bad_marker wrong_generation unsolicited unsolicited_rekem_ack : ConnError
  rekem_in_flight wrong_share_size : ConnError
  kem_failed : KemError → ConnError
  close_with_payload unexpected_type malformed_error : ConnError
  session_error : ℕ → List ℕ → ConnError

abbrev pub or_derive_failed : {A : Type 0} → Result KeyError A → Result ConnError A
or_derive_failed (ok a) = ok a
or_derive_failed (err e) = err (derive_failed e)

-- epochKeys.zeroize, and wipeRoot on a root
unfoldable pub zero_keys : EpochKeys → EpochKeys
zero_keys st = record st { key = replicate 32 0; iv = replicate 12 0 }

unfoldable pub wipe_root : List ℕ → List ℕ
wipe_root b = replicate (length b) 0

-- `&epochKeys{}`
abbrev pub new_keys : EpochKeys
new_keys = record { epoch = 0; key = replicate 32 0; iv = replicate 12 0; seq = 0 }

abbrev pub set_keys : EpochKeys → List ℕ × List ℕ → EpochKeys
set_keys st (k, v) = record st { key = k; iv = v }

-- The result of advance, whose receiver is changed on an error, too.
abbrev pub advanced : EpochKeys → Result KeyError EpochKeys → EpochKeys × Option ConnError
advanced st (ok st') = (st', none)
advanced st (err e) = (st, some (derive_failed e))

module _ (c : Crypto) where
  unfoldable pub derive : EpochKeys → List ℕ → KeyDirection → ℕ → ℕ → Result KeyError EpochKeys
  derive st master dir channel p = do
    ts ← derive_traffic_secret c master dir st.epoch aead_aes_256_gcm channel p
    key_iv ← derive_key_iv c ts p
    ok (set_keys st key_iv)

  unfoldable pub advance : EpochKeys → List ℕ → KeyDirection → ℕ → ℕ → EpochKeys × Option ConnError
  unfolding zero_keys
  advance st master dir channel p =
      let next = record (zero_keys st) { epoch = (st.epoch + 1) % 2 ^ 64; seq = 0 } in
      advanced next (derive next master dir channel p)

  abbrev pub or_derive :
      Option EpochKeys → List ℕ → KeyDirection → ℕ → ℕ → Result KeyError EpochKeys
  or_derive (some st) master dir channel p = ok st
  or_derive none master dir channel p = derive new_keys master dir channel p

  -- The keys of a channel: those in the map, or those of epoch 0.
  unfoldable pub current : ℕ → Flow → ℕ → Result KeyError EpochKeys
  current p flow channel = or_derive (find channel flow.keys) flow.master flow.dir channel p

-- A write to the map of a direction.
unfoldable pub hold : ℕ → EpochKeys → Flow → Flow
hold channel st flow = record flow { keys = put channel st flow.keys }

unfoldable pub hold_send : ℕ → EpochKeys → Conn → Conn
hold_send channel st conn = record conn { send = hold channel st conn.send }

unfoldable pub hold_recv : ℕ → EpochKeys → Conn → Conn
hold_recv channel st conn = record conn { recv = hold channel st conn.recv }

-- `st.seq++`
unfoldable pub bump : EpochKeys → EpochKeys
bump st = record st { seq = (st.seq + 1) % 2 ^ 64 }

-- A new root: the old one is wiped and the keys of all channels are dropped.
unfoldable pub next_root : List ℕ → ℕ → Flow → Flow
next_root root gen flow = record flow { master = root; gen = gen; keys = [] }

module _ (c : Crypto) where
  -- sendState and recvState
  unfoldable pub send_state : ℕ → Conn → Result ConnError (EpochKeys × Conn)
  unfolding hold_send
  send_state channel conn = do
    fail_if conn.closed closed_conn
    st ← or_derive_failed (current c conn.profile conn.send channel)
    ok (st, hold_send channel st conn)

  unfoldable pub recv_state : ℕ → Conn → Result ConnError (EpochKeys × Conn)
  unfolding hold_recv
  recv_state channel conn = do
    fail_if conn.closed closed_conn
    st ← or_derive_failed (current c conn.profile conn.recv channel)
    ok (st, hold_recv channel st conn)

unfoldable pub zero_all : List (ℕ × EpochKeys) → List (ℕ × EpochKeys)
zero_all [] = []
zero_all ((channel, st) ∷ keys) = (channel, zero_keys st) ∷ zero_all keys

unfoldable pub wipe : Flow → Flow
unfolding wipe_root zero_all
wipe flow = record flow { master = wipe_root flow.master; keys = zero_all flow.keys }

-- Zeroize
unfoldable pub zeroize : Conn → Conn
unfolding wipe
zeroize conn = record conn {
  send = wipe conn.send;
  recv = wipe conn.recv;
  pending_rekem = none;
  pending_ku_ack = [];
  pending_mr_ack = [];
  closed = true;
}

-- Close: the transport and the keys go, once.
unfoldable pub close : Conn → Conn
unfolding zeroize
close conn = if conn.shut then conn else zeroize (record conn { shut = true })
