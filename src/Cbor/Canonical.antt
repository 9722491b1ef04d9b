-- ===== src/Cbor/Canonical.antt =====
-- The values that the decoder can return: canonical at every level, and nested no deeper than
-- the levels given.
use npamp_protocol.Cbor.{Value, uint64, int, int64, bytes, text, array, cbor_map, umap, bool, nil}
use npamp_protocol.Cbor.{
  Items, no_item, item, Entries, no_entry, entry, encode, length_items, length_entries,
}
use npamp_protocol.Cbor.Decoder.{out_of_order}
use npamp_protocol.Prelude.{ℕ, zero, suc, ◌^◌, ◌<◌, ◌≡◌, false, List, length, Option, some, none}
use npamp_protocol.Prelude.Int.{pos, negsuc}

unfoldable mutual
  -- Numbers fit 64 bits, negative ones int64; a map's entries hold their keys' encodings, each
  -- strictly above the one before.
  pub IsCanonical : ℕ → Value → Type 0
  IsCanonical zero v = ⊥
  IsCanonical (suc l) (uint64 n) = n < 2 ^ 64
  IsCanonical (suc l) (int z) = ⊥
  IsCanonical (suc l) (int64 (pos n)) = ⊥
  IsCanonical (suc l) (int64 (negsuc n)) = n < 2 ^ 63
  IsCanonical (suc l) (bytes bs) = length bs < 2 ^ 64
  IsCanonical (suc l) (text bs) = length bs < 2 ^ 64
  IsCanonical (suc l) (array vs) = (length_items vs < 2 ^ 64) × IsCanonicalItems l vs
  IsCanonical (suc l) (cbor_map es) = (length_entries es < 2 ^ 64) × IsCanonicalEntries l none es
  IsCanonical (suc l) (umap ps) = ⊥
  IsCanonical (suc l) (bool b) = Unit {0}
  IsCanonical (suc l) nil = Unit {0}

  pub IsCanonicalItems : ℕ → Items → Type 0
  IsCanonicalItems l no_item = Unit {0}
  IsCanonicalItems l (item v vs) = IsCanonical l v × IsCanonicalItems l vs

  pub IsCanonicalEntries : ℕ → Option (List ℕ) → Entries → Type 0
  IsCanonicalEntries l prev no_entry = Unit {0}
  IsCanonicalEntries l prev (entry k key val es) =
      (k ≡ encode key)
      × (out_of_order prev k ≡ false)
      × IsCanonical l key
      × IsCanonical l val
      × IsCanonicalEntries l (some k) es
