-- ===== src/Bodies/Payload.antt =====
-- Which payloads the Memory and the Settlement validators accept (impl/go/memory_bodies.go,
-- settlement_bodies.go).
use npamp_protocol.Bodies.Accepted.{FieldFits, AllKeysFit, check_fields_iff}
use npamp_protocol.Bodies.{MemField, Malformed}
use npamp_protocol.Bodies.{get, check_fields, as_map, check_frame_kind, check_corr, known_schema}
use npamp_protocol.Bodies.Memory.{memory_schemas, validate_memory_payload}
use npamp_protocol.Bodies.Settlement.{settlement_schemas, validate_settlement_payload}
use npamp_protocol.Cbor.{
  Value, uint64, int, int64, bytes, text, array, cbor_map, umap, bool, nil, encode, Entries,
}
use npamp_protocol.Cbor.Decoder.{CborError, decode_top, cbor_max_nesting_depth}
use npamp_protocol.Cbor.Canonical.{IsCanonical}
use npamp_protocol.Cbor.Strict.{decode_top-encode_iff}
use npamp_protocol.Prelude.{
  ℕ, ◌≤◌, List, length, All, Option, none, some, ◌≡◌, ◌↔◌, refl, sym, ap, arith,
}
use npamp_protocol.Prelude.{Result, ok, err, ◌>>=◌, ◌>>◌, >>=-eq-ok, ok-injective}
use npamp_protocol.Prelude.Maps.{find}
use npamp_protocol.Prelude.Bytes.{IsByte}

-- The body of a frame of type `ft`, as the companion specification describes it.
pub record IsBody (schemas : List (ℕ × List MemField)) (ft : ℕ) (payload : List ℕ) (m : Entries)
    : Type 0 where
  pub schema : List MemField
  pub listed : find ft schemas ≡ some schema
  pub canonical : IsCanonical cbor_max_nesting_depth (cbor_map m)
  pub encoded : encode (cbor_map m) ≡ payload
  pub frame_kind : get 0 m ≡ some (uint64 ft)
  pub corr : List ℕ
  pub corr_at_1 : get 1 m ≡ some (bytes corr)
  pub corr_least : 1 ≤ length corr
  pub corr_most : length corr ≤ 64
  pub fields : All (λ f. FieldFits (get f.key m) f) schema
  pub keys : AllKeysFit m

as_map_ok : (r : Result CborError Value) (m : Entries) → as_map r ≡ ok m → r ≡ ok (cbor_map m)
unfolding as_map
as_map_ok (err e) m h = ground arith
as_map_ok (ok (cbor_map es)) m h = ap (λ t. ok (cbor_map t)) (ok-injective h)
as_map_ok (ok (uint64 n)) m h = ground arith
as_map_ok (ok (int n)) m h = ground arith
as_map_ok (ok (int64 n)) m h = ground arith
as_map_ok (ok (bytes n)) m h = ground arith
as_map_ok (ok (text n)) m h = ground arith
as_map_ok (ok (array n)) m h = ground arith
as_map_ok (ok (umap n)) m h = ground arith
as_map_ok (ok (bool n)) m h = ground arith
as_map_ok (ok nil) m h = ground arith

check_frame_kind_ok :
    (ft : ℕ) (v : Option Value) → check_frame_kind ft v ≡ ok tt → v ≡ some (uint64 ft)
unfolding check_frame_kind
check_frame_kind_ok ft none h = ground arith
check_frame_kind_ok ft (some (uint64 n)) h = let e : n ≡ ft = ground arith in rw e
check_frame_kind_ok ft (some (int n)) h = ground arith
check_frame_kind_ok ft (some (int64 n)) h = ground arith
check_frame_kind_ok ft (some (bytes n)) h = ground arith
check_frame_kind_ok ft (some (text n)) h = ground arith
check_frame_kind_ok ft (some (array n)) h = ground arith
check_frame_kind_ok ft (some (cbor_map n)) h = ground arith
check_frame_kind_ok ft (some (umap n)) h = ground arith
check_frame_kind_ok ft (some (bool n)) h = ground arith
check_frame_kind_ok ft (some nil) h = ground arith

check_corr_ok :
    (v : Option Value)
    → check_corr v ≡ ok tt
    → (b : List ℕ) × (v ≡ some (bytes b)) × (1 ≤ length b) × (length b ≤ 64)
unfolding check_corr
check_corr_ok none h = absurd (ground arith)
check_corr_ok (some (bytes b)) h = (b, refl, ground arith, ground arith)
check_corr_ok (some (uint64 n)) h = absurd (ground arith)
check_corr_ok (some (int n)) h = absurd (ground arith)
check_corr_ok (some (int64 n)) h = absurd (ground arith)
check_corr_ok (some (text n)) h = absurd (ground arith)
check_corr_ok (some (array n)) h = absurd (ground arith)
check_corr_ok (some (cbor_map n)) h = absurd (ground arith)
check_corr_ok (some (umap n)) h = absurd (ground arith)
check_corr_ok (some (bool n)) h = absurd (ground arith)
check_corr_ok (some nil) h = absurd (ground arith)

known_schema_ok :
    (o : Option (List MemField)) (s : List MemField) → known_schema o ≡ ok s → o ≡ some s
known_schema_ok none s h = ground arith
known_schema_ok (some t) s h = ap some (ok-injective h)

frame_kind_fits : (ft : ℕ) → check_frame_kind ft (some (uint64 ft)) ≡ ok tt
unfolding check_frame_kind
frame_kind_fits ft = ground arith

corr_fits : (b : List ℕ) → 1 ≤ length b → length b ≤ 64 → check_corr (some (bytes b)) ≡ ok tt
unfolding check_corr
corr_fits b p q = ground arith

-- The text of both validators.
validate_body : List (ℕ × List MemField) → ℕ → List ℕ → Result Malformed Entries
validate_body schemas ft payload = do
  schema ← known_schema (find ft schemas)
  m ← as_map (decode_top payload)
  check_frame_kind ft (get 0 m)
  check_corr (get 1 m)
  check_fields m schema
  ok m

module _ (schemas : List (ℕ × List MemField)) (ft : ℕ) (payload : List ℕ) where
  IsBody-cast : {m n : Entries} → n ≡ m → IsBody schemas ft payload m → IsBody schemas ft payload n
  IsBody-cast e h = rw e h

  validate_body-IsBody :
      (m : Entries)
      → All IsByte payload
      → validate_body schemas ft payload ≡ ok m
      → IsBody schemas ft payload m
  unfolding validate_body
  validate_body-IsBody m q h =
      let (schema, h0, k0) = >>=-eq-ok (known_schema (find ft schemas)) _ h in
      let (n, h1, k1) = >>=-eq-ok (as_map (decode_top payload)) _ k0 in
      let (_, h2, k2) = >>=-eq-ok (check_frame_kind ft (get 0 n)) _ k1 in
      let (_, h3, k3) = >>=-eq-ok (check_corr (get 1 n)) _ k2 in
      let (_, h4, k4) = >>=-eq-ok (check_fields n schema) _ k3 in
      let (corr, at_1, least, most) = check_corr_ok (get 1 n) h3 in
      let whole = (decode_top-encode_iff payload (cbor_map n) q).0 (as_map_ok _ n h1) in
      let fits = (check_fields_iff n schema).0 h4 in
      IsBody-cast (sym (ok-injective k4)) (record {
        schema = schema;
        listed = known_schema_ok _ schema h0;
        canonical = whole.0;
        encoded = whole.1;
        frame_kind = check_frame_kind_ok ft (get 0 n) h2;
        corr = corr;
        corr_at_1 = at_1;
        corr_least = least;
        corr_most = most;
        fields = fits.0;
        keys = fits.1;
      })

  IsBody-validate_body :
      (m : Entries)
      → All IsByte payload
      → IsBody schemas ft payload m
      → validate_body schemas ft payload ≡ ok m
  unfolding validate_body as_map
  IsBody-validate_body m q h =
      let decoded : decode_top payload ≡ ok (cbor_map m) =
        (decode_top-encode_iff payload (cbor_map m) q).1 (h.canonical, h.encoded) in
      rw (h.listed, decoded, h.frame_kind, h.corr_at_1)
        (rw
          (
            frame_kind_fits ft,
            corr_fits h.corr h.corr_least h.corr_most,
            (check_fields_iff m h.schema).1 (h.fields, h.keys),
          )
          refl)

-- The Memory validator accepts an octet string, for a frame type, with a map exactly when the
-- frame type has a schema, the octets are the deterministic encoding of the map, key 0 holds
-- the frame type, key 1 a byte string of 1 to 64 octets, every field of the schema fits and no
-- key is negative or no integer.
pub validate_memory_payload_iff :
    (ft : ℕ) (payload : List ℕ) (m : Entries)
    → All IsByte payload
    → (validate_memory_payload ft payload ≡ ok m) ↔ IsBody memory_schemas ft payload m
unfolding validate_memory_payload validate_body
validate_memory_payload_iff ft payload m q = (
  validate_body-IsBody memory_schemas ft payload m q,
  IsBody-validate_body memory_schemas ft payload m q,
)

-- The Settlement validator accepts an octet string by the Memory validator's rule, with the
-- Settlement schemas.
pub validate_settlement_payload_iff :
    (ft : ℕ) (payload : List ℕ) (m : Entries)
    → All IsByte payload
    → (validate_settlement_payload ft payload ≡ ok m) ↔ IsBody settlement_schemas ft payload m
unfolding validate_settlement_payload validate_body
validate_settlement_payload_iff ft payload m q = (
  validate_body-IsBody settlement_schemas ft payload m q,
  IsBody-validate_body settlement_schemas ft payload m q,
)
