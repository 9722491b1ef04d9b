-- ===== src/Bodies/Amounts.antt =====
-- The values that the Commerce validator accepts in a nested map (impl/go/commerce_bodies.go).
use npamp_protocol.Bodies.Accepted.{AllKeysFit, check_keys_ok}
use npamp_protocol.Bodies.Commerce.{
  as_nested, text_at, required, check_units, check_scale, validate_commerce_amount,
}
use npamp_protocol.Bodies.{get}
use npamp_protocol.Cbor.{
  Value, uint64, int, int64, bytes, text, array, cbor_map, umap, bool, nil, Entries,
}
use npamp_protocol.Prelude.{ℕ, List, ◌≡◌, ◌⊎◌, inl, inr, refl, ap, Option, none, some}
use npamp_protocol.Prelude.{ok, >>=-eq-ok, ok-injective}
use npamp_protocol.Prelude.Int.{ℤ}

abbrev pub IsInteger : Value → Type 0
IsInteger v = ((n : ℕ) × (v ≡ uint64 n)) ⊎ ((z : ℤ) × (v ≡ int64 z))

-- An amount of money: an integer of units, an unsigned scale and a currency.
pub record IsAmount (v : Value) : Type 0 where
  pub amount : Entries
  pub is_map : v ≡ cbor_map amount
  pub units : Value
  pub units_at : get 0 amount ≡ some units
  pub units_integer : IsInteger units
  pub scale : ℕ
  pub scale_at : get 1 amount ≡ some (uint64 scale)
  pub currency : List ℕ
  pub currency_at : get 2 amount ≡ some (text currency)
  pub keys_fit : AllKeysFit amount

pub text_at_ok :
    (key : ℕ) (v : Option Value) (s : List ℕ) → text_at key v ≡ ok s → v ≡ some (text s)
unfolding text_at
text_at_ok key none s h = cc
text_at_ok key (some (text b)) s h = ap (λ t. some (text t)) (ok-injective h)
text_at_ok key (some (uint64 n)) s h = cc
text_at_ok key (some (int n)) s h = cc
text_at_ok key (some (int64 n)) s h = cc
text_at_ok key (some (bytes n)) s h = cc
text_at_ok key (some (array n)) s h = cc
text_at_ok key (some (cbor_map n)) s h = cc
text_at_ok key (some (umap n)) s h = cc
text_at_ok key (some (bool n)) s h = cc
text_at_ok key (some nil) s h = cc

pub as_nested_ok : (v : Value) (m : Entries) → as_nested v ≡ ok m → v ≡ cbor_map m
as_nested_ok (cbor_map n) m h = ap cbor_map (ok-injective h)
as_nested_ok (uint64 n) m h = cc
as_nested_ok (int n) m h = cc
as_nested_ok (int64 n) m h = cc
as_nested_ok (bytes n) m h = cc
as_nested_ok (text n) m h = cc
as_nested_ok (array n) m h = cc
as_nested_ok (umap n) m h = cc
as_nested_ok (bool n) m h = cc
as_nested_ok nil m h = cc

pub required_ok : (key : ℕ) (v : Option Value) (w : Value) → required key v ≡ ok w → v ≡ some w
required_ok key none w h = cc
required_ok key (some v) w h = ap some (ok-injective h)

check_units_ok :
    (v : Option Value) → check_units v ≡ ok tt → (u : Value) × (v ≡ some u) × IsInteger u
unfolding check_units
check_units_ok none h = absurd (cc)
check_units_ok (some (uint64 n)) h = (uint64 n, refl, inl (n, refl))
check_units_ok (some (int64 z)) h = (int64 z, refl, inr (z, refl))
check_units_ok (some (int n)) h = absurd (cc)
check_units_ok (some (bytes n)) h = absurd (cc)
check_units_ok (some (text n)) h = absurd (cc)
check_units_ok (some (array n)) h = absurd (cc)
check_units_ok (some (cbor_map n)) h = absurd (cc)
check_units_ok (some (umap n)) h = absurd (cc)
check_units_ok (some (bool n)) h = absurd (cc)
check_units_ok (some nil) h = absurd (cc)

check_scale_ok : (v : Option Value) → check_scale v ≡ ok tt → (n : ℕ) × (v ≡ some (uint64 n))
unfolding check_scale
check_scale_ok none h = absurd (cc)
check_scale_ok (some (uint64 n)) h = (n, refl)
check_scale_ok (some (int64 z)) h = absurd (cc)
check_scale_ok (some (int n)) h = absurd (cc)
check_scale_ok (some (bytes n)) h = absurd (cc)
check_scale_ok (some (text n)) h = absurd (cc)
check_scale_ok (some (array n)) h = absurd (cc)
check_scale_ok (some (cbor_map n)) h = absurd (cc)
check_scale_ok (some (umap n)) h = absurd (cc)
check_scale_ok (some (bool n)) h = absurd (cc)
check_scale_ok (some nil) h = absurd (cc)

pub validate_commerce_amount-IsAmount :
    (v : Value) → validate_commerce_amount v ≡ ok tt → IsAmount v
unfolding validate_commerce_amount
validate_commerce_amount-IsAmount v h =
    let (m, h0, k0) = >>=-eq-ok (as_nested v) _ h in
    let (_, h1, k1) = >>=-eq-ok (check_units (get 0 m)) _ k0 in
    let (_, h2, k2) = >>=-eq-ok (check_scale (get 1 m)) _ k1 in
    let (currency, h3, k3) = >>=-eq-ok (text_at 2 (get 2 m)) _ k2 in
    let (units, units_at, integer) = check_units_ok (get 0 m) h1 in
    let (scale, scale_at) = check_scale_ok (get 1 m) h2 in
    record {
      amount = m;
      is_map = as_nested_ok v m h0;
      units = units;
      units_at = units_at;
      units_integer = integer;
      scale = scale;
      scale_at = scale_at;
      currency = currency;
      currency_at = text_at_ok 2 (get 2 m) currency h3;
      keys_fit = check_keys_ok m k3;
    }
