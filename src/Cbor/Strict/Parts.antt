-- ===== src/Cbor/Strict/Parts.antt =====
-- The loops of the decoder, over a strict decoder of one item (impl/go/memory_cbor.go).
use npamp_protocol.Cbor.{Value}
use npamp_protocol.Cbor.{
  Items, Entries, entry, encode, encode_items, encode_entries, length_items, length_entries,
}
use npamp_protocol.Cbor.Canonical.{IsCanonical, IsCanonicalItems, IsCanonicalEntries}
use npamp_protocol.Cbor.Decoder.{CborError, decode_items, decode_entries, out_of_order, map_order}
use npamp_protocol.Prelude.{ℕ, zero, suc, ◌+◌, ◌≤◌, ◌≡◌, refl, sym, ◌∙◌, ap, arith, false}
use npamp_protocol.Prelude.{List, ◌++◌, length, Option, some, Result, ok, take, drop, All}
use npamp_protocol.Prelude.{
  length-drop, take-take-drop, All-drop, >>=-eq-ok, fail_if, fail_if-ok, ok_pair,
}
use npamp_protocol.Prelude.Bytes.{IsByte}

-- An item was read off the front of `b`: it is canonical, and `n` octets are its encoding.
pub record Reads (l : ℕ) (b : List ℕ) (v : Value) (n : ℕ) : Type 0 where
  pub canonical : IsCanonical l v
  pub there : n ≤ length b
  pub octets : encode v ≡ take n b

abbrev pub IsStrict : ℕ → (List ℕ → Result CborError (Value × ℕ)) → Type 0
IsStrict l decode_one =
    (b : List ℕ) (v : Value) (n : ℕ) → All IsByte b → decode_one b ≡ ok (v, n) → Reads l b v n

pub record ReadsItems (l count : ℕ) (b : List ℕ) (off : ℕ) (vs : Items) (end : ℕ) : Type 0 where
  pub k : ℕ
  pub end_is : end ≡ off + k
  pub count_is : length_items vs ≡ count
  pub canonical : IsCanonicalItems l vs
  pub there : k ≤ length b
  pub octets : encode_items vs ≡ take k b

pub record ReadsEntries (l : ℕ) (prev : Option (List ℕ)) (count : ℕ) (b : List ℕ) (off : ℕ)
    (es : Entries) (end : ℕ) : Type 0 where
  pub k : ℕ
  pub end_is : end ≡ off + k
  pub count_is : length_entries es ≡ count
  pub canonical : IsCanonicalEntries l prev es
  pub there : k ≤ length b
  pub octets : encode_entries es ≡ take k b

pub Reads-cast :
    {l : ℕ} {b : List ℕ} {v w : Value} {n k : ℕ} → v ≡ w → n ≡ k → Reads l b w k → Reads l b v n
Reads-cast p q r = rw (p, q) r

pub items_cast :
    {l c : ℕ} {b : List ℕ} {off : ℕ} {vs ws : Items} {n k : ℕ}
    → vs ≡ ws
    → n ≡ k
    → ReadsItems l c b off ws k
    → ReadsItems l c b off vs n
items_cast p q r = rw (p, q) r

pub entries_cast :
    {l : ℕ} {prev : Option (List ℕ)} {c : ℕ} {b : List ℕ} {off : ℕ} {es fs : Entries} {n k : ℕ}
    → es ≡ fs
    → n ≡ k
    → ReadsEntries l prev c b off fs k
    → ReadsEntries l prev c b off es n
entries_cast p q r = rw (p, q) r

pub ReadsEntries-step :
    (l : ℕ) (prev : Option (List ℕ)) (count : ℕ) (b : List ℕ) (off : ℕ) (key val : Value)
    (kn vn : ℕ) (tail : Entries) (end : ℕ)
    → Reads l b key kn
    → Reads l (drop kn b) val vn
    → ReadsEntries l (some (take kn b)) count (drop vn (drop kn b)) ((off + kn) + vn) tail end
    → out_of_order prev (take kn b) ≡ false
    → ReadsEntries l prev (suc count) b off (entry (take kn b) key val tail) end
unfolding IsCanonical encode
ReadsEntries-step l prev count b off key val kn vn tail end rk rv rs order = record {
  k = kn + (vn + rs.k);
  end_is = omega (arith, rs.end_is);
  count_is = ap suc rs.count_is;
  canonical = (sym rk.octets, order, rk.canonical, rv.canonical, rs.canonical);
  there = omega (arith, rs.there, rv.there, rk.there, length-drop kn b, length-drop vn (drop kn b));
  octets =
      (λ i. take kn b ++ (rv.octets i ++ rs.octets i))
      ∙ ap (λ t. take kn b ++ t) (take-take-drop vn rs.k (drop kn b))
      ∙ take-take-drop kn (vn + rs.k) b;
}

module _ (l : ℕ) (decode_one : List ℕ → Result CborError (Value × ℕ))
    (strict : IsStrict l decode_one) where
  pub decode_items-ReadsItems :
      (count : ℕ) (b : List ℕ) (off : ℕ) (vs : Items) (end : ℕ)
      → All IsByte b
      → decode_items decode_one count b off ≡ ok (vs, end)
      → ReadsItems l count b off vs end
  unfolding decode_items IsCanonical encode
  decode_items-ReadsItems zero b off vs end h e =
      let (p, q) = ok_pair e in
      items_cast p q (record {
        k = 0;
        end_is = omega arith;
        count_is = refl;
        canonical = tt;
        there = omega arith;
        octets = refl;
      })
  decode_items-ReadsItems (suc count) b off vs end h e =
      let ((el, en), one, next) = >>=-eq-ok (decode_one b) _ e in
      let ((els, end'), more, done) =
        >>=-eq-ok (decode_items decode_one count (drop en b) (off + en)) _ next in
      let r = strict b el en h one in
      let rs =
        decode_items-ReadsItems count (drop en b) (off + en) els end' (All-drop IsByte en b h)
          more in
      let (p, q) = ok_pair done in
      items_cast p q (record {
        k = en + rs.k;
        end_is = omega (arith, rs.end_is);
        count_is = ap suc rs.count_is;
        canonical = (r.canonical, rs.canonical);
        there = omega (arith, rs.there, r.there, length-drop en b);
        octets = (λ i. r.octets i ++ rs.octets i) ∙ take-take-drop en rs.k b;
      })

  pub decode_entries-ReadsEntries :
      (prev : Option (List ℕ)) (count : ℕ) (b : List ℕ) (off : ℕ) (es : Entries) (end : ℕ)
      → All IsByte b
      → decode_entries decode_one prev count b off ≡ ok (es, end)
      → ReadsEntries l prev count b off es end
  unfolding decode_entries IsCanonical encode
  decode_entries-ReadsEntries prev zero b off es end h e =
      let (p, q) = ok_pair e in
      entries_cast p q (record {
        k = 0;
        end_is = omega arith;
        count_is = refl;
        canonical = tt;
        there = omega arith;
        octets = refl;
      })
  decode_entries-ReadsEntries prev (suc count) b off es end h e =
      let ((key, kn), one, next) = >>=-eq-ok (decode_one b) _ e in
      let (u, order, next') =
        >>=-eq-ok (fail_if (out_of_order prev (take kn b)) map_order) _ next in
      let ((val, vn), two, next'') = >>=-eq-ok (decode_one (drop kn b)) _ next' in
      let ((tail, end'), more, done) =
        >>=-eq-ok
          (decode_entries decode_one (some (take kn b)) count (drop vn (drop kn b))
            ((off + kn) + vn))
          _ next'' in
      let rk = strict b key kn h one in
      let bytes' = All-drop IsByte kn b h in
      let rv = strict (drop kn b) val vn bytes' two in
      let rs =
        decode_entries-ReadsEntries (some (take kn b)) count (drop vn (drop kn b)) ((off + kn) + vn)
          tail end' (All-drop IsByte vn (drop kn b) bytes') more in
      let (p, q) = ok_pair done in
      entries_cast p q (
        ReadsEntries-step l prev count b off key val kn vn tail end' rk rv rs
          (fail_if-ok (out_of_order prev (take kn b)) map_order order))
