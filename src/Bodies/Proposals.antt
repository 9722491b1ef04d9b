-- ===== src/Bodies/Proposals.antt =====
-- The settlement intents that the Commerce validator accepts (impl/go/commerce_bodies.go).
use npamp_protocol.Bodies.Accepted.{FieldFits, AllKeysFit, check_fields_iff, check_keys_ok}
use npamp_protocol.Bodies.Amounts.{
  IsAmount, as_nested_ok, text_at_ok, required_ok, validate_commerce_amount-IsAmount,
}
use npamp_protocol.Bodies.Commerce.{
  commerce_schemas, commerce_intent_propose_req, as_nested, text_at, required, is_party, parties_in,
  elements, validate_commerce_amount, validate_commerce_leg, check_legs, commerce_parties,
  validate_commerce_nested, validate_commerce_payload,
}
use npamp_protocol.Bodies.{
  MemField, must, may, k_array, k_text, k_map, k_uint, get, check_fields, as_map, check_frame_kind,
  check_corr, unnamed_party,
}
use npamp_protocol.Cbor.{
  Value, uint64, int, int64, bytes, text, array, cbor_map, umap, bool, nil, Entries, Items, no_item,
  item,
}
use npamp_protocol.Cbor.Decoder.{decode_top}
use npamp_protocol.Prelude.{ℕ, List, [], ◌∷◌, ◌≡◌, refl, sym, ap, ◌∙◌, Option, none, some}
use npamp_protocol.Prelude.{
  Bool, true, false, Bool-cases, inl, inr, ◌⊎◌, not, bytes_eq, bytes_eq→eq, ok, >>=-eq-ok,
  ok-injective, fail_if, fail_if-ok,
}
use npamp_protocol.Prelude.Maps.{find}

abbrev pub AllItems : (Value → Type 0) → Items → Type 0
AllItems P no_item = Unit {0}
AllItems P (item v vs) = P v × AllItems P vs

-- One of the items is the value.
abbrev pub InItems : Value → Items → Type 0
InItems v no_item = ⊥
InItems v (item w vs) = (w ≡ v) ⊎ InItems v vs

abbrev pub IsText : Value → Type 0
IsText v = (s : List ℕ) × (v ≡ text s)

-- A leg with an amount, between two of the parties.
pub record IsLeg (parties : Items) (v : Value) : Type 0 where
  pub leg : Entries
  pub is_map : v ≡ cbor_map leg
  pub from : List ℕ
  pub from_at : get 0 leg ≡ some (text from)
  pub from_named : InItems (text from) parties
  pub to : List ℕ
  pub to_at : get 1 leg ≡ some (text to)
  pub to_named : InItems (text to) parties
  pub amount : Value
  pub amount_at : get 2 leg ≡ some amount
  pub amount_fits : IsAmount amount
  pub keys_fit : AllKeysFit leg

array_ok :
    (key : ℕ) (v : Option Value)
    → FieldFits v (must key k_array)
    → (xs : Items) × (v ≡ some (array xs))
array_ok key none h = absurd (cc)
array_ok key (some v) h = (h.0, ap some h.1)

not-false : (b : Bool) → not b ≡ false → b ≡ true
not-false true h = refl
not-false false h = cc

no_party :
    (name : List ℕ) (names : List (List ℕ))
    → parties_in no_item ≡ ok names
    → is_party name names ≡ true
    → ⊥
unfolding parties_in is_party
no_party name [] h k = cc
no_party name (n ∷ names) h k = let e = ok-injective h in cc

text_front :
    (v : Value) (vs : Items) (names : List (List ℕ))
    → parties_in (item v vs) ≡ ok names
    → (s : List ℕ) × (rest : List (List ℕ)) × (v ≡ text s)
      × (parties_in vs ≡ ok rest)
      × (names ≡ s ∷ rest)
unfolding parties_in
text_front (text s) vs names h =
    let (rest, h0, k0) = >>=-eq-ok (parties_in vs) _ h in (s, rest, refl, h0, sym (ok-injective k0))
text_front (uint64 n) vs names h = absurd (cc)
text_front (int n) vs names h = absurd (cc)
text_front (int64 n) vs names h = absurd (cc)
text_front (bytes n) vs names h = absurd (cc)
text_front (array n) vs names h = absurd (cc)
text_front (cbor_map n) vs names h = absurd (cc)
text_front (umap n) vs names h = absurd (cc)
text_front (bool n) vs names h = absurd (cc)
text_front nil vs names h = absurd (cc)

parties_in-IsText :
    (vs : Items) (names : List (List ℕ)) → parties_in vs ≡ ok names → AllItems IsText vs
parties_in-IsText no_item names h = tt
parties_in-IsText (item v vs) names h =
    let (s, rest, e, h0, _) = text_front v vs names h in ((s, e), parties_in-IsText vs rest h0)

-- A name of the set is the text of one of the items.
is_party-InItems :
    (name : List ℕ) (vs : Items) (names : List (List ℕ))
    → parties_in vs ≡ ok names
    → is_party name names ≡ true
    → InItems (text name) vs
is_party-InItems name no_item names h k = absurd (no_party name names h k)
is_party-InItems name (item v vs) names h k =
    let (s, rest, e, h0, e') = text_front v vs names h in
    let named : is_party name (s ∷ rest) ≡ true = rw e' at k in
    elim (Bool-cases (bytes_eq s name)) [
      | inl same ↦ inl (e ∙ ap text (bytes_eq→eq s name same))
      | inr other ↦ inr (is_party-InItems name vs rest h0 (unfold is_party in (rw other at named)))
    ]

module _ (parties : Items) (names : List (List ℕ)) (read : parties_in parties ≡ ok names) where
  validate_commerce_leg-IsLeg :
      (v : Value) → validate_commerce_leg v names ≡ ok tt → IsLeg parties v
  unfolding validate_commerce_leg
  validate_commerce_leg-IsLeg v h =
      let (m, h0, k0) = >>=-eq-ok (as_nested v) _ h in
      let (from, h1, k1) = >>=-eq-ok (text_at 0 (get 0 m)) _ k0 in
      let (to, h2, k2) = >>=-eq-ok (text_at 1 (get 1 m)) _ k1 in
      let (amount, h3, k3) = >>=-eq-ok (required 2 (get 2 m)) _ k2 in
      let (_, h4, k4) = >>=-eq-ok (validate_commerce_amount amount) _ k3 in
      let (_, h5, k5) = >>=-eq-ok (fail_if (not (is_party from names)) unnamed_party) _ k4 in
      let (_, h6, k6) = >>=-eq-ok (fail_if (not (is_party to names)) unnamed_party) _ k5 in
      let from_party = not-false (is_party from names) (fail_if-ok _ _ h5) in
      let to_party = not-false (is_party to names) (fail_if-ok _ _ h6) in
      record {
        leg = m;
        is_map = as_nested_ok v m h0;
        from = from;
        from_at = text_at_ok 0 (get 0 m) from h1;
        from_named = is_party-InItems from parties names read from_party;
        to = to;
        to_at = text_at_ok 1 (get 1 m) to h2;
        to_named = is_party-InItems to parties names read to_party;
        amount = amount;
        amount_at = required_ok 2 (get 2 m) amount h3;
        amount_fits = validate_commerce_amount-IsAmount amount h4;
        keys_fit = check_keys_ok m k6;
      }

  legs_ok : (legs : Items) → check_legs legs names ≡ ok tt → AllItems (IsLeg parties) legs
  unfolding check_legs
  legs_ok no_item h = tt
  legs_ok (item v vs) h =
      let (_, p, q) = >>=-eq-ok (validate_commerce_leg v names) _ h in
      (validate_commerce_leg-IsLeg v p, legs_ok vs q)

-- A settlement intent: its parties are texts, and every leg is between two of them.
pub record IsProposal (m : Entries) : Type 0 where
  pub parties : Items
  pub parties_at : get 2 m ≡ some (array parties)
  pub all_texts : AllItems IsText parties
  pub legs : Items
  pub legs_at : get 3 m ≡ some (array legs)
  pub between : AllItems (IsLeg parties) legs

IsProposal-cast : {m n : Entries} → n ≡ m → IsProposal m → IsProposal n
IsProposal-cast e h = rw e h

abbrev proposal_schema : List MemField
proposal_schema =
    must 2 k_array ∷ must 3 k_array ∷ may 4 k_text ∷ may 5 k_map ∷ may 6 k_text ∷ must 7 k_uint ∷ []

nested-IsProposal :
    (m : Entries) (parties legs : Items)
    → get 2 m ≡ some (array parties)
    → get 3 m ≡ some (array legs)
    → validate_commerce_nested commerce_intent_propose_req m ≡ ok tt
    → IsProposal m
unfolding validate_commerce_nested commerce_parties
nested-IsProposal m parties legs p q h =
    let (names, h0, k0) = >>=-eq-ok (commerce_parties m) _ h in
    let read = sym (ap (λ v. parties_in (elements v)) p) ∙ h0 in
    record {
      parties = parties;
      parties_at = p;
      all_texts = parties_in-IsText parties names read;
      legs = legs;
      legs_at = q;
      between =
          legs_ok parties names read legs (sym (ap (λ v. check_legs (elements v) names) q) ∙ k0);
    }

-- The parties of a settlement intent that the validator accepts are an array of texts, its legs are an
-- array, and every leg is a map from one of those texts to one of them, with an amount: a map with an
-- integer of units, an unsigned scale and a text as currency. Neither map has a negative key or one
-- that is no integer.
pub validate_commerce_payload-IsProposal :
    (payload : List ℕ) (m : Entries)
    → validate_commerce_payload commerce_intent_propose_req payload ≡ ok m
    → IsProposal m
unfolding validate_commerce_payload find commerce_schemas
validate_commerce_payload-IsProposal payload m h =
    let (n, h1, k1) = >>=-eq-ok (as_map (decode_top payload)) _ h in
    let (_, h2, k2) = >>=-eq-ok (check_frame_kind commerce_intent_propose_req (get 0 n)) _ k1 in
    let (_, h3, k3) = >>=-eq-ok (check_corr (get 1 n)) _ k2 in
    let (_, h4, k4) = >>=-eq-ok (check_fields n proposal_schema) _ k3 in
    let (_, h5, k5) = >>=-eq-ok (validate_commerce_nested commerce_intent_propose_req n) _ k4 in
    let fits = ((check_fields_iff n proposal_schema).0 h4).0 in
    let (parties, p) = array_ok 2 (get 2 n) fits.0 in
    let (legs, q) = array_ok 3 (get 3 n) fits.1.0 in
    IsProposal-cast (sym (ok-injective k5)) (nested-IsProposal n parties legs p q h5)
