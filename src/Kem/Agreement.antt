-- ===== src/Kem/Agreement.antt =====
-- Both ends of the hybrid KEM of impl/go/kem.go compute the same secrets.
use npamp_protocol.Crypto.{Crypto, IsKem}
use npamp_protocol.Kem.{
  KemClient, KemError, SharedSecrets, or_fail, mlkem_error, x25519_error, kem_share_of,
  shared_secrets, encapsulate_with, kem_ciphertext_size, kem_share_size, bad_kem_share_size,
}
use npamp_protocol.Prelude.{ℕ, ◌≡◌, refl, sym, ap, ◌∙◌, arith}
use npamp_protocol.Prelude.{List, ◌++◌, length, take, drop, length-append, take-append, drop-append}
use npamp_protocol.Prelude.{Option, none, some, not, ◌==◌, ok, >>=-eq-ok, fail_if, ok_pair}

or_fail-ok : {A : Type 0} (o : Option A) (e : KemError) (a : A) → or_fail o e ≡ ok a → o ≡ some a
or_fail-ok none e a h = cc
or_fail-ok (some b) e a h = cc

module _ (c : Crypto) where
  -- What a successful encapsulation has computed.
  record Encapsulated (share key random : List ℕ) (ct : List ℕ) (ss : SharedSecrets) : Type 0 where
    mlkem_ct : List ℕ
    encapsulated : c.mlkem_encapsulate (take 1184 share) random ≡ some (ss.mlkem, mlkem_ct)
    exchanged : c.x25519 key (drop 1184 share) ≡ some ss.x25519
    joined : ct ≡ mlkem_ct ++ c.x25519_public key

  encapsulate_with-Encapsulated :
      (share key random ct : List ℕ) (ss : SharedSecrets)
      → encapsulate_with c share key random ≡ ok (ct, ss)
      → Encapsulated share key random ct ss
  unfolding encapsulate_with
  encapsulate_with-Encapsulated share key random ct ss h =
      let sized =
        >>=-eq-ok (fail_if (not (length share == kem_share_size)) bad_kem_share_size) _ h in
      let kem =
        >>=-eq-ok (or_fail (c.mlkem_encapsulate (take 1184 share) random) mlkem_error) _ sized.2 in
      let dh = >>=-eq-ok (or_fail (c.x25519 key (drop 1184 share)) x25519_error) _ kem.2 in
      let same = ok_pair dh.2 in
      record {
        mlkem_ct = kem.0.1;
        encapsulated =
            or_fail-ok _ mlkem_error kem.0 kem.1 ∙ (λ i. some ((sym same.1 i).mlkem, kem.0.1));
        exchanged =
            or_fail-ok _ x25519_error dh.0 dh.1
            ∙ ap (λ (s : SharedSecrets). some s.x25519) (sym same.1);
        joined = same.0;
      }

  module _ (kem : IsKem c) (client : KemClient) (key random ct : List ℕ) (ss : SharedSecrets)
      (done : encapsulate_with c (kem_share_of c client) key random ≡ ok (ct, ss)) where
    facts : Encapsulated (kem_share_of c client) key random ct ss
    facts = encapsulate_with-Encapsulated (kem_share_of c client) key random ct ss done

    share_first : take 1184 (kem_share_of c client) ≡ c.mlkem_public client.mlkem_key
    unfolding kem_share_of
    share_first =
        rw (← kem.length-public client.mlkem_key)
          (take-append (c.mlkem_public client.mlkem_key) (c.x25519_public client.x25519_key))

    share_second : drop 1184 (kem_share_of c client) ≡ c.x25519_public client.x25519_key
    unfolding kem_share_of
    share_second =
        rw (← kem.length-public client.mlkem_key)
          (drop-append (c.mlkem_public client.mlkem_key) (c.x25519_public client.x25519_key))

    length-mlkem_ct : length facts.mlkem_ct ≡ 1088
    length-mlkem_ct =
        kem.length-ciphertext (take 1184 (kem_share_of c client)) random ss.mlkem facts.mlkem_ct
          facts.encapsulated

    -- The ciphertext has the size that the peer expects.
    pub length-encapsulated : length ct ≡ kem_ciphertext_size
    length-encapsulated = rw facts.joined (
        omega (
          arith,
          length-append facts.mlkem_ct (c.x25519_public key),
          length-mlkem_ct,
          kem.length-x25519_public key,
        ))

    decapsulated : c.mlkem_decapsulate client.mlkem_key (take 1088 ct) ≡ some ss.mlkem
    decapsulated =
        let first : take 1088 ct ≡ facts.mlkem_ct =
          rw facts.joined
            (rw (← length-mlkem_ct) (take-append facts.mlkem_ct (c.x25519_public key))) in
        rw first (
          kem.decapsulate-encapsulate client.mlkem_key random ss.mlkem facts.mlkem_ct
            (rw share_first at facts.encapsulated))

    exchanged_back : c.x25519 client.x25519_key (drop 1088 ct) ≡ some ss.x25519
    exchanged_back =
        let second : drop 1088 ct ≡ c.x25519_public key =
          rw facts.joined
            (rw (← length-mlkem_ct) (drop-append facts.mlkem_ct (c.x25519_public key))) in
        rw second (kem.exchange_comm client.x25519_key key ∙ (rw share_second at facts.exchanged))

    -- With a KEM that decapsulates what it encapsulated, an exchange that gives both ends the same
    -- value, and the sizes of both: what EncapsulateWith computes for the share of a client, the
    -- client's SharedSecrets computes from the ciphertext.
    pub shared_secrets-encapsulate_with : shared_secrets c client ct ≡ ok ss
    unfolding shared_secrets
    shared_secrets-encapsulate_with = rw (length-encapsulated, decapsulated, exchanged_back) refl
