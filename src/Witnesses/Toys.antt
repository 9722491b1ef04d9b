-- ===== src/Witnesses/Toys.antt =====
-- Concrete functions in place of the cryptographic packages that impl/go calls, and two ends of a
-- session with them.
use npamp_protocol.Crypto.{Crypto, IsAead, IsKem}
use npamp_protocol.KeySchedule.{client_to_server, server_to_client}
use npamp_protocol.Session.Delivery.Steps.{InSync}
use npamp_protocol.Session.Flows.{Agree, fresh-IsBounded}
use npamp_protocol.Session.State.{Conn, Flow}
use npamp_protocol.Prelude.{ℕ, ◌+◌, ◌-◌, ◌≡◌, ◌==◌, refl, ap, arith, if◌then◌else◌}
use npamp_protocol.Prelude.{
  List, [], ◌∷◌, ◌++◌, length, take, drop, replicate, length-append, take-append, drop-append,
}
use npamp_protocol.Prelude.{Option, none, some, false, bytes_eq, bytes_eq_refl}
use npamp_protocol.Prelude.Bytes.{put_be, get_be, length-put_be}

abbrev pub tag_of : List ℕ → List ℕ → List ℕ → List ℕ
tag_of key nonce aad = put_be 16 (get_be (aad ++ (key ++ nonce)))

unfoldable pub unseal_toy : List ℕ → List ℕ → List ℕ → List ℕ → Option (List ℕ)
unseal_toy key nonce sealed aad =
    let n = length sealed - 16 in
    if bytes_eq (drop n sealed) (tag_of key nonce aad) then some (take n sealed) else none

abbrev pub x_of : List ℕ → ℕ
x_of a = get_be (put_be 32 (get_be a))

unfoldable pub encapsulate_toy : List ℕ → List ℕ → Option (List ℕ × List ℕ)
encapsulate_toy ek random = if length random == 1088 then some (random, random) else none

-- No cipher and no hash is meant: each function only has the shape that the code relies on.
abbrev pub toy : Crypto
toy = record {
  expand = λ secret info n. some (take n (info ++ (secret ++ replicate n 0)));
  extract = λ secret salt. some (take 32 (secret ++ (salt ++ replicate 32 0)));
  sha256 = λ text. take 32 (text ++ replicate 32 0);
  seal = λ key nonce text aad. text ++ tag_of key nonce aad;
  unseal = unseal_toy;
  mlkem_public = λ dk. put_be 1184 (get_be dk);
  mlkem_encapsulate = encapsulate_toy;
  mlkem_decapsulate = λ dk ct. some ct;
  x25519_public = λ a. put_be 32 (get_be a);
  x25519 = λ a p. some (put_be 32 (x_of a + get_be p));
}

unseal_toy-seal :
    (key nonce text aad : List ℕ)
    → unseal_toy key nonce (text ++ tag_of key nonce aad) aad ≡ some text
unfolding unseal_toy
unseal_toy-seal key nonce text aad =
    let tag = tag_of key nonce aad in
    let n : length (text ++ tag) - 16 ≡ length text =
      omega (arith, length-append text tag, length-put_be 16 (get_be (aad ++ (key ++ nonce)))) in
    rw (n, drop-append text tag, take-append text tag, bytes_eq_refl tag) refl

pub toy-IsAead : IsAead toy
toy-IsAead = record {
  unseal-seal = unseal_toy-seal;
  length-seal = λ key nonce text aad. omega (
    arith,
    length-append text (tag_of key nonce aad),
    length-put_be 16 (get_be (aad ++ (key ++ nonce))),
  );
}

encapsulate_toy-some :
    (ek random ss ct : List ℕ)
    → encapsulate_toy ek random ≡ some (ss, ct)
    → (ct ≡ ss) × (length ct ≡ 1088)
unfolding encapsulate_toy
encapsulate_toy-some ek random ss ct h = ground arith

pub toy-IsKem : IsKem toy
toy-IsKem = record {
  decapsulate-encapsulate = λ dk random ss ct h.
      ap (λ (xs : List ℕ). some xs)
        (encapsulate_toy-some (put_be 1184 (get_be dk)) random ss ct h).0;
  length-public = λ dk. length-put_be 1184 (get_be dk);
  length-ciphertext = λ ek random ss ct h. (encapsulate_toy-some ek random ss ct h).1;
  exchange_comm = λ a b.
      let e : x_of a + x_of b ≡ x_of b + x_of a = omega arith in
      ap (λ (n : ℕ). some (put_be 32 n)) e;
  length-x25519_public = λ a. length-put_be 32 (get_be a);
}

abbrev up : Flow
up = record { master = 1 ∷ 2 ∷ []; gen = 0; dir = client_to_server; keys = [] }

abbrev down : Flow
down = record { master = 1 ∷ 2 ∷ []; gen = 0; dir = server_to_client; keys = [] }

abbrev pub ending : Flow → Flow → Conn
ending sends receives = record {
  profile = 1;
  send = sends;
  recv = receives;
  pending_rekem = none;
  pending_ku_ack = [];
  pending_mr_ack = [];
  dropped_unauthenticated = 0;
  dropped_out_of_sequence = 0;
  closing = false;
  closed = false;
  shut = false;
}

abbrev pub client_end : Conn
client_end = ending up down

abbrev pub server_end : Conn
server_end = ending down up

flow-Agree : (flow : Flow) → flow.keys ≡ [] → flow.gen ≡ 0 → Agree toy 1 flow flow
flow-Agree flow h g = record {
  master = refl;
  gen = refl;
  dir = refl;
  keys = λ channel. refl;
  bounded = λ channel st e. fresh-IsBounded toy 1 flow channel st h e;
  gen_fits = omega (arith, g);
}

pub client-InSync : InSync toy client_end server_end
client-InSync = record { profile = refl; live = refl; agree = flow-Agree up refl refl }

pub server-InSync : InSync toy server_end client_end
server-InSync = record { profile = refl; live = refl; agree = flow-Agree down refl refl }
