-- ===== src/Session/Flows.antt =====
-- Two ends of one direction that hold the same keys (impl/go/sdk/conn.go), whatever channels they
-- have derived keys for so far.
use npamp_protocol.Crypto.{Crypto}
use npamp_protocol.KeySchedule.{
  KeyDirection, derive_traffic_secret, derive_key_iv, aead_aes_256_gcm,
}
use npamp_protocol.Session.State.{
  EpochKeys, Flow, new_keys, derive, current, hold, bump, next_root, set_keys, advance, zero_keys,
}
use npamp_protocol.Prelude.{ℕ, ◌+◌, ◌%◌, ◌^◌, ◌<◌, ◌≡◌, refl, sym, ap, ◌∙◌, arith, inl, inr}
use npamp_protocol.Prelude.{List, [], ◌==◌, if◌then◌else◌, Bool-cases, ==_iff}
use npamp_protocol.Prelude.{ok, ok-injective, >>=-eq-ok, Result-cases}
use npamp_protocol.Prelude.Maps.{find, find-put}

pub record IsBounded (st : EpochKeys) : Type 0 where
  pub epoch : st.epoch < 2 ^ 64
  pub seq : st.seq < 2 ^ 64

pub bump-IsBounded : (st : EpochKeys) → IsBounded st → IsBounded (bump st)
unfolding bump
bump-IsBounded st b = record { epoch = b.epoch; seq = omega arith }

module _ (c : Crypto) where
  -- New keys keep the epoch and the sequence.
  pub record IsDerived (st st' : EpochKeys) : Type 0 where
    pub epoch : st'.epoch ≡ st.epoch
    pub seq : st'.seq ≡ st.seq

  pub derive-IsDerived :
      (st : EpochKeys) (master : List ℕ) (dir : KeyDirection) (channel p : ℕ) (st' : EpochKeys)
      → derive c st master dir channel p ≡ ok st'
      → IsDerived st st'
  unfolding derive
  derive-IsDerived st master dir channel p st' h =
      let ts =
        >>=-eq-ok (derive_traffic_secret c master dir st.epoch aead_aes_256_gcm channel p) _ h in
      let kv = >>=-eq-ok (derive_key_iv c ts.0 p) _ ts.2 in
      let e : set_keys st kv.0 ≡ st' = ok-injective kv.2 in
      record {
        epoch = ap (λ (k : EpochKeys). k.epoch) (sym e);
        seq = ap (λ (k : EpochKeys). k.seq) (sym e);
      }

  module _ (p : ℕ) where
    pub current-hold :
        (channel : ℕ) (st : EpochKeys) (flow : Flow) (other : ℕ)
        → current c p (hold channel st flow) other
          ≡ (if channel == other then ok st else current c p flow other)
    unfolding current hold
    current-hold channel st flow other =
        rw (find-put channel other st flow.keys)
          (elim (Bool-cases (channel == other)) [ inl e ↦ rw e refl | inr e ↦ rw e refl ])

    -- Both ends have the same root and the same keys for every channel.
    pub record Agree (x y : Flow) : Type 0 where
      pub master : x.master ≡ y.master
      pub gen : x.gen ≡ y.gen
      pub dir : x.dir ≡ y.dir
      pub keys : (channel : ℕ) → current c p x channel ≡ current c p y channel
      pub bounded : (channel : ℕ) (st : EpochKeys) → current c p x channel ≡ ok st → IsBounded st
      pub gen_fits : x.gen < 2 ^ 64

    module _ (x y : Flow) (a : Agree x y) where
      hold_keys :
          (channel : ℕ) (st : EpochKeys) (other : ℕ)
          → current c p (hold channel st x) other ≡ current c p (hold channel st y) other
      hold_keys channel st other =
          rw (current-hold channel st x other, current-hold channel st y other, a.keys other)

      hold-IsBounded :
          (channel : ℕ) (st : EpochKeys)
          → IsBounded st
          → (other : ℕ) (st' : EpochKeys) → current c p (hold channel st x) other ≡ ok st'
          → IsBounded st'
      hold-IsBounded channel st b other st' h = elim (Bool-cases (channel == other)) [
        | inl e ↦
            let same : st ≡ st' = ok-injective (rw (current-hold channel st x other, e) at h) in
            rw (← same) b
        | inr e ↦ a.bounded other st' (rw (current-hold channel st x other, e) at h)
      ]

      -- The same keys put on both ends keep the ends in agreement.
      pub hold-Agree :
          (channel : ℕ) (st : EpochKeys)
          → IsBounded st
          → Agree (hold channel st x) (hold channel st y)
      unfolding hold
      hold-Agree channel st b = record {
        master = a.master;
        gen = a.gen;
        dir = a.dir;
        keys = hold_keys channel st;
        bounded = hold-IsBounded channel st b;
        gen_fits = a.gen_fits;
      }

    pub current-cached :
        (channel : ℕ) (st : EpochKeys) (flow : Flow) (other : ℕ)
        → current c p flow channel ≡ ok st
        → current c p (hold channel st flow) other ≡ current c p flow other
    current-cached channel st flow other h = elim (Bool-cases (channel == other)) [
      | inl e ↦
          let same : channel ≡ other = (==_iff channel other).0 e in
          rw (current-hold channel st flow other, e)
            (sym h ∙ ap (λ (n : ℕ). current c p flow n) same)
      | inr e ↦ rw (current-hold channel st flow other, e) refl
    ]

    module _ (x y : Flow) (a : Agree x y) (channel : ℕ) (st : EpochKeys) where
      -- Keys that one end derives and caches change nothing between the ends.
      pub cached-Agree : current c p y channel ≡ ok st → Agree x (hold channel st y)
      unfolding hold
      cached-Agree h = record {
        master = a.master;
        gen = a.gen;
        dir = a.dir;
        keys = λ other. a.keys other ∙ sym (current-cached channel st y other h);
        bounded = a.bounded;
        gen_fits = a.gen_fits;
      }

      pub cached_left-Agree : current c p x channel ≡ ok st → Agree (hold channel st x) y
      unfolding hold
      cached_left-Agree h = record {
        master = a.master;
        gen = a.gen;
        dir = a.dir;
        keys = λ other. current-cached channel st x other h ∙ a.keys other;
        bounded =
            λ other st' e. a.bounded other st' (sym (current-cached channel st x other h) ∙ e);
        gen_fits = a.gen_fits;
      }

    pub fresh-IsBounded :
        (flow : Flow) (channel : ℕ) (st : EpochKeys)
        → flow.keys ≡ []
        → current c p flow channel ≡ ok st
        → IsBounded st
    unfolding current find
    fresh-IsBounded flow channel st e h =
        let d = derive-IsDerived new_keys flow.master flow.dir channel p st (rw e at h) in
        record { epoch = rw d.epoch (omega arith); seq = rw d.seq (omega arith) }

    -- A new root at both ends.
    pub next_root-Agree :
        (x y : Flow) (root : List ℕ) (gen : ℕ)
        → Agree x y
        → gen < 2 ^ 64
        → Agree (next_root root gen x) (next_root root gen y)
    unfolding next_root current find
    next_root-Agree x y root gen a h = record {
      master = refl;
      gen = refl;
      dir = a.dir;
      keys = λ channel. ap (λ (d : KeyDirection). derive c new_keys root d channel p) a.dir;
      bounded = λ channel st e. fresh-IsBounded (next_root root gen x) channel st refl e;
      gen_fits = h;
    }

    -- Keys that are put on one end twice count once.
    pub hold_twice-Agree :
        (x y : Flow) (channel : ℕ) (u v : EpochKeys)
        → Agree x (hold channel v y)
        → Agree x (hold channel v (hold channel u y))
    unfolding hold
    hold_twice-Agree x y channel u v a = record {
      master = a.master;
      gen = a.gen;
      dir = a.dir;
      keys = λ other.
          a.keys other
          ∙ rw
              (
                current-hold channel v (hold channel u y) other,
                current-hold channel u y other,
                current-hold channel v y other,
              )
              (elim (Bool-cases (channel == other)) [ inl e ↦ rw e refl | inr e ↦ rw e refl ]);
      bounded = a.bounded;
      gen_fits = a.gen_fits;
    }

  pub advance-IsBounded :
      (st : EpochKeys) (master : List ℕ) (dir : KeyDirection) (channel p : ℕ)
      → IsBounded (advance c st master dir channel p).0
  unfolding advance zero_keys
  advance-IsBounded st master dir channel p =
      let next = record (zero_keys st) { epoch = (st.epoch + 1) % 2 ^ 64; seq = 0 } in
      let b : IsBounded next = record { epoch = omega arith; seq = omega arith } in
      elim (Result-cases (derive c next master dir channel p)) [
        | inl (st', e) ↦
            let d = derive-IsDerived next master dir channel p st' e in
            rw e (record { epoch = rw d.epoch b.epoch; seq = rw d.seq b.seq })
        | inr (why, e) ↦ rw e b
      ]
