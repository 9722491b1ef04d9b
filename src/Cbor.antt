-- ===== src/Cbor.antt =====
-- The values and the encoder of the deterministic CBOR codec, impl/go/memory_cbor.go.
-- A Go `any` that the codec accepts is a `Value`; any other Go type makes cborEncode panic and has
-- no counterpart here. A Go string is its bytes.
pub mod Decoder
pub mod Head
pub mod Canonical
pub mod RoundTrip
pub mod Strict
use Prim.Native.Nat.{bit_or}
use npamp_protocol.Prelude.{ℕ, zero, suc, ◌+◌, ◌-◌, ◌*◌, ◌/◌, ◌%◌, ◌^◌, ◌<◌, ◌≤◌}
use npamp_protocol.Prelude.{Bool, true, false, ltb, ◌==◌, if◌then◌else◌}
use npamp_protocol.Prelude.{List, [], ◌∷◌, ◌++◌, length, Option, some, none}
use npamp_protocol.Prelude.Int.{ℤ, pos, negsuc}
use npamp_protocol.Prelude.Bytes.{put_be}

mutual
  pub data Value : Type 0 where
    uint64 : ℕ → Value
    int : ℤ → Value
    int64 : ℤ → Value
    bytes : List ℕ → Value
    text : List ℕ → Value
    array : Items → Value
    cbor_map : Entries → Value  -- *cborMap
    umap : Pairs → Value  -- map[uint64]any
    bool : Bool → Value
    nil : Value

  -- []any
  pub data Items : Type 0 where
    no_item : Items
    item : Value → Items → Items

  -- []cborEntry: the encoded key, the key and the value of each entry.
  pub data Entries : Type 0 where
    no_entry : Entries
    entry : List ℕ → Value → Value → Entries → Entries

  -- The entries of a Go map in some order; a map has each key once.
  pub data Pairs : Type 0 where
    no_pair : Pairs
    pair : ℕ → Value → Pairs → Pairs

-- Bytewise lexicographic order; a proper prefix sorts first.
unfoldable pub byte_less : List ℕ → List ℕ → Bool
byte_less [] [] = false
byte_less [] (b ∷ bs) = true
byte_less (a ∷ as') [] = false
byte_less (a ∷ as') (b ∷ bs) = if a == b then byte_less as' bs else ltb a b

-- major<<5 | argument, in shortest form; `byte(arg >> 8), byte(arg)` is `put_be 2 arg`.
unfoldable pub encode_head : ℕ → ℕ → List ℕ
encode_head major arg =
    let mb = major * 32 % 256 in
    if ltb arg 24
    then bit_or mb arg ∷ []
    else if ltb arg (2 ^ 8)
    then bit_or mb 24 ∷ put_be 1 arg
    else if ltb arg (2 ^ 16)
    then bit_or mb 25 ∷ put_be 2 arg
    else if ltb arg (2 ^ 32)
    then bit_or mb 26 ∷ put_be 4 arg
    else bit_or mb 27 ∷ put_be 8 arg

abbrev pub length_items : Items → ℕ
length_items no_item = 0
length_items (item v vs) = suc (length_items vs)

abbrev pub length_entries : Entries → ℕ
length_entries no_entry = 0
length_entries (entry k key val es) = suc (length_entries es)

-- Encoded keys with their encoded values, as sort.Slice orders them: by the key.
unfoldable pub insert_encoded : List ℕ × List ℕ → List (List ℕ × List ℕ) → List (List ℕ × List ℕ)
insert_encoded p [] = p ∷ []
insert_encoded p (q ∷ qs) = if byte_less p.0 q.0 then p ∷ q ∷ qs else q ∷ insert_encoded p qs

unfoldable pub sort_encoded : List (List ℕ × List ℕ) → List (List ℕ × List ℕ)
unfolding insert_encoded
sort_encoded [] = []
sort_encoded (p ∷ ps) = insert_encoded p (sort_encoded ps)

unfoldable pub concat_encoded : List (List ℕ × List ℕ) → List ℕ
concat_encoded [] = []
concat_encoded (p ∷ ps) = p.0 ++ (p.1 ++ concat_encoded ps)

-- cborEncode. A map[uint64]any is encoded through newCBORMapU: keys encoded, entries sorted.
unfoldable mutual
  unfolding sort_encoded concat_encoded

  pub encode : Value → List ℕ
  encode (uint64 n) = encode_head 0 n
  encode (int (pos n)) = encode_head 0 n
  encode (int (negsuc n)) = encode_head 1 n
  encode (int64 (pos n)) = encode_head 0 n
  encode (int64 (negsuc n)) = encode_head 1 n
  encode (bytes bs) = encode_head 2 (length bs) ++ bs
  encode (text bs) = encode_head 3 (length bs) ++ bs
  encode (array vs) = encode_head 4 (length_items vs) ++ encode_items vs
  encode (cbor_map es) = encode_head 5 (length_entries es) ++ encode_entries es
  encode (umap ps) =
      encode_head 5 (length (encode_pairs ps)) ++ concat_encoded (sort_encoded (encode_pairs ps))
  encode (bool true) = 0xf5 ∷ []
  encode (bool false) = 0xf4 ∷ []
  encode nil = 0xf6 ∷ []

  pub encode_items : Items → List ℕ
  encode_items no_item = []
  encode_items (item v vs) = encode v ++ encode_items vs

  pub encode_entries : Entries → List ℕ
  encode_entries no_entry = []
  encode_entries (entry k key val es) = k ++ (encode val ++ encode_entries es)

  pub encode_pairs : Pairs → List (List ℕ × List ℕ)
  encode_pairs no_pair = []
  encode_pairs (pair k val ps) = (encode_head 0 k, encode val) ∷ encode_pairs ps

-- newCBORMapU
unfoldable pub insert_entry : List ℕ → Value → Value → Entries → Entries
insert_entry k key val no_entry = entry k key val no_entry
insert_entry k key val (entry j key' val' es) =
    if byte_less k j
    then entry k key val (entry j key' val' es)
    else entry j key' val' (insert_entry k key val es)

unfoldable pub new_cbor_map_u : Pairs → Entries
unfolding insert_entry
new_cbor_map_u no_pair = no_entry
new_cbor_map_u (pair k val ps) = insert_entry (encode_head 0 k) (uint64 k) val (new_cbor_map_u ps)
