-- ===== src/Bodies/Accepted.antt =====
-- What a validator of operation bodies accepts (impl/go/memory_bodies.go, settlement_bodies.go).
use npamp_protocol.Bodies.{
  MemField, CborKind, k_uint, k_text, k_bytes, k_array, k_map, k_bool, matches_kind,
}
use npamp_protocol.Bodies.{get, check_field, check_schema, check_key, check_keys, check_fields}
use npamp_protocol.Cbor.{
  Value, uint64, int, int64, bytes, text, array, cbor_map, umap, bool, nil, Entries, Items,
  no_entry, entry,
}
use npamp_protocol.Prelude.{List, [], ◌∷◌, All, Option, none, some, ◌≡◌, ◌↔◌, refl, arith}
use npamp_protocol.Prelude.{ℕ, Bool, true, false}
use npamp_protocol.Prelude.{ok, >>=-eq-ok}
use npamp_protocol.Prelude.Int.{pos, negsuc}

-- A value of the Go type that a kind stands for.
abbrev pub IsOfKind : CborKind → Value → Type 0
IsOfKind k_uint v = (n : ℕ) × (v ≡ uint64 n)
IsOfKind k_text v = (s : List ℕ) × (v ≡ text s)
IsOfKind k_bytes v = (b : List ℕ) × (v ≡ bytes b)
IsOfKind k_array v = (vs : Items) × (v ≡ array vs)
IsOfKind k_map v = (m : Entries) × (v ≡ cbor_map m)
IsOfKind k_bool v = (b : Bool) × (v ≡ bool b)

-- A field that is present has its kind, and a required one is present.
abbrev pub FieldFits : Option Value → MemField → Type 0
FieldFits none f = f.required ≡ false
FieldFits (some val) f = IsOfKind f.kind val

-- Keys a later revision may add: integers that are not negative.
abbrev pub KeyFits : Value → Type 0
KeyFits (uint64 n) = Unit {0}
KeyFits (int64 (pos n)) = Unit {0}
KeyFits v = ⊥

abbrev pub AllKeysFit : Entries → Type 0
AllKeysFit no_entry = Unit {0}
AllKeysFit (entry k key val es) = KeyFits key × AllKeysFit es

matches_kind-IsOfKind : (v : Value) (k : CborKind) → matches_kind v k ≡ true → IsOfKind k v
unfolding matches_kind
matches_kind-IsOfKind (uint64 x) k_uint h = (x, refl)
matches_kind-IsOfKind (uint64 x) k_text h = absurd (cc)
matches_kind-IsOfKind (uint64 x) k_bytes h = absurd (cc)
matches_kind-IsOfKind (uint64 x) k_array h = absurd (cc)
matches_kind-IsOfKind (uint64 x) k_map h = absurd (cc)
matches_kind-IsOfKind (uint64 x) k_bool h = absurd (cc)
matches_kind-IsOfKind (text x) k_uint h = absurd (cc)
matches_kind-IsOfKind (text x) k_text h = (x, refl)
matches_kind-IsOfKind (text x) k_bytes h = absurd (cc)
matches_kind-IsOfKind (text x) k_array h = absurd (cc)
matches_kind-IsOfKind (text x) k_map h = absurd (cc)
matches_kind-IsOfKind (text x) k_bool h = absurd (cc)
matches_kind-IsOfKind (bytes x) k_uint h = absurd (cc)
matches_kind-IsOfKind (bytes x) k_text h = absurd (cc)
matches_kind-IsOfKind (bytes x) k_bytes h = (x, refl)
matches_kind-IsOfKind (bytes x) k_array h = absurd (cc)
matches_kind-IsOfKind (bytes x) k_map h = absurd (cc)
matches_kind-IsOfKind (bytes x) k_bool h = absurd (cc)
matches_kind-IsOfKind (array x) k_uint h = absurd (cc)
matches_kind-IsOfKind (array x) k_text h = absurd (cc)
matches_kind-IsOfKind (array x) k_bytes h = absurd (cc)
matches_kind-IsOfKind (array x) k_array h = (x, refl)
matches_kind-IsOfKind (array x) k_map h = absurd (cc)
matches_kind-IsOfKind (array x) k_bool h = absurd (cc)
matches_kind-IsOfKind (cbor_map x) k_uint h = absurd (cc)
matches_kind-IsOfKind (cbor_map x) k_text h = absurd (cc)
matches_kind-IsOfKind (cbor_map x) k_bytes h = absurd (cc)
matches_kind-IsOfKind (cbor_map x) k_array h = absurd (cc)
matches_kind-IsOfKind (cbor_map x) k_map h = (x, refl)
matches_kind-IsOfKind (cbor_map x) k_bool h = absurd (cc)
matches_kind-IsOfKind (bool x) k_uint h = absurd (cc)
matches_kind-IsOfKind (bool x) k_text h = absurd (cc)
matches_kind-IsOfKind (bool x) k_bytes h = absurd (cc)
matches_kind-IsOfKind (bool x) k_array h = absurd (cc)
matches_kind-IsOfKind (bool x) k_map h = absurd (cc)
matches_kind-IsOfKind (bool x) k_bool h = (x, refl)
matches_kind-IsOfKind (int x) k h = absurd (cc)
matches_kind-IsOfKind (int64 x) k h = absurd (cc)
matches_kind-IsOfKind (umap x) k h = absurd (cc)
matches_kind-IsOfKind nil k h = absurd (cc)

IsOfKind-matches_kind : (v : Value) (k : CborKind) → IsOfKind k v → matches_kind v k ≡ true
unfolding matches_kind
IsOfKind-matches_kind v k_uint h = rw h.1 refl
IsOfKind-matches_kind v k_text h = rw h.1 refl
IsOfKind-matches_kind v k_bytes h = rw h.1 refl
IsOfKind-matches_kind v k_array h = rw h.1 refl
IsOfKind-matches_kind v k_map h = rw h.1 refl
IsOfKind-matches_kind v k_bool h = rw h.1 refl

check_field-FieldFits : (v : Option Value) (f : MemField) → check_field v f ≡ ok tt → FieldFits v f
unfolding check_field
check_field-FieldFits none f h = ground arith
check_field-FieldFits (some val) f h = matches_kind-IsOfKind val f.kind (ground arith)

FieldFits-check_field : (v : Option Value) (f : MemField) → FieldFits v f → check_field v f ≡ ok tt
unfolding check_field
FieldFits-check_field none f h = ground arith
FieldFits-check_field (some val) f h = rw (IsOfKind-matches_kind val f.kind h) refl

check_key-KeyFits : (key : Value) → check_key key ≡ ok tt → KeyFits key
check_key-KeyFits (uint64 n) h = tt
check_key-KeyFits (int z) h = ground arith
check_key-KeyFits (int64 (pos n)) h = tt
check_key-KeyFits (int64 (negsuc n)) h = ground arith
check_key-KeyFits (bytes b) h = ground arith
check_key-KeyFits (text b) h = ground arith
check_key-KeyFits (array b) h = ground arith
check_key-KeyFits (cbor_map b) h = ground arith
check_key-KeyFits (umap b) h = ground arith
check_key-KeyFits (bool b) h = ground arith
check_key-KeyFits nil h = ground arith

KeyFits-check_key : (key : Value) → KeyFits key → check_key key ≡ ok tt
KeyFits-check_key (uint64 n) h = refl
KeyFits-check_key (int64 (pos n)) h = refl
KeyFits-check_key (int z) h = absurd h
KeyFits-check_key (int64 (negsuc n)) h = absurd h
KeyFits-check_key (bytes b) h = absurd h
KeyFits-check_key (text b) h = absurd h
KeyFits-check_key (array b) h = absurd h
KeyFits-check_key (cbor_map b) h = absurd h
KeyFits-check_key (umap b) h = absurd h
KeyFits-check_key (bool b) h = absurd h
KeyFits-check_key nil h = absurd h

pub check_schema_ok :
    (m : Entries) (fs : List MemField)
    → check_schema m fs ≡ ok tt
    → All (λ f. FieldFits (get f.key m) f) fs
unfolding check_schema
check_schema_ok m [] h = tt
check_schema_ok m (f ∷ fs) h =
    let (_, p, q) = >>=-eq-ok (check_field (get f.key m) f) _ h in
    (check_field-FieldFits (get f.key m) f p, check_schema_ok m fs q)

check_schema_fits :
    (m : Entries) (fs : List MemField)
    → All (λ f. FieldFits (get f.key m) f) fs
    → check_schema m fs ≡ ok tt
unfolding check_schema
check_schema_fits m [] h = refl
check_schema_fits m (f ∷ fs) h =
    rw (FieldFits-check_field (get f.key m) f h.0) (check_schema_fits m fs h.1)

pub check_keys_ok : (m : Entries) → check_keys m ≡ ok tt → AllKeysFit m
unfolding check_keys
check_keys_ok no_entry h = tt
check_keys_ok (entry k key val es) h =
    let (_, p, q) = >>=-eq-ok (check_key key) _ h in (check_key-KeyFits key p, check_keys_ok es q)

check_keys_fit : (m : Entries) → AllKeysFit m → check_keys m ≡ ok tt
unfolding check_keys
check_keys_fit no_entry h = refl
check_keys_fit (entry k key val es) h = rw (KeyFits-check_key key h.0) (check_keys_fit es h.1)

-- On every map and schema, checkFields succeeds exactly when each field that the schema lists
-- fits and no key is negative or no integer.
pub check_fields_iff :
    (m : Entries) (fs : List MemField)
    → (check_fields m fs ≡ ok tt) ↔ (All (λ f. FieldFits (get f.key m) f) fs × AllKeysFit m)
unfolding check_fields
check_fields_iff m fs = (
  λ h.
      let (_, p, q) = >>=-eq-ok (check_schema m fs) _ h in
      (check_schema_ok m fs p, check_keys_ok m q),
  λ h. rw (check_schema_fits m fs h.0) (check_keys_fit m h.1),
)
