-- ===== src/Relay/Forwarding/Taken.antt =====
-- What one round of forward takes from its source (impl/go/relay).
use npamp_protocol.Frame.{Frame, FrameError, unmarshal_binary, header_size, magic}
use npamp_protocol.Relay.{
  Source, RelayError, Direction, HookFunc, Deadline, in_force, on_closed_conn, failed, Turn,
}
use npamp_protocol.Relay.{
  read_full, read_raw_frame, read_deadlined, mid_frame, run_hook, parse, accept, header_of,
}
use npamp_protocol.Relay.{malformed, cancelled}
use npamp_protocol.Prelude.{ℕ, zero, suc, ◌+◌, ◌≤◌, ◌≡◌, sym, ap, ◌∙◌, arith}
use npamp_protocol.Prelude.{
  List, [], ◌∷◌, ◌++◌, length, take, drop, take-append-drop, length-take, length-append,
}
use npamp_protocol.Prelude.{Option, false, not, ltb, ◌==◌, if◌then◌else◌, bytes_eq}
use npamp_protocol.Prelude.{Result, ok, err, >>=-eq-ok, fail_if, fail_if-ok, ok_pair}
use npamp_protocol.Prelude.Bytes.{get_be, slice}
use mathlib.Core.List.{append_assoc}

-- The octets of the frames, one after another.
abbrev pub joined : List (List ℕ) → List ℕ
joined [] = []
joined (raw ∷ raws) = raw ++ joined raws

-- What may be forwarded: a frame within the bound that parses and that the hook admits.
pub record Admitted {E : Type 0} (hook : Option (HookFunc E)) (dir : Direction) (max_size : ℕ)
    (raw : List ℕ) : Type 0 where
  pub bounded : length raw ≤ max_size
  pub frame : Frame
  pub parsed : unmarshal_binary raw ≡ ok frame
  pub hooked : run_hook hook dir (header_of raw frame) ≡ ok tt

-- The front of the source, `n` octets long, was taken.
pub record Took (n : ℕ) (s : Source) (xs : List ℕ) (s' : Source) : Type 0 where
  pub split : xs ++ s'.octets ≡ s.octets
  pub sized : length xs ≡ n

-- What one frame takes from the source.
pub record TookFrame (max_size : ℕ) (s : Source) (raw : List ℕ) (s' : Source) : Type 0 where
  pub split : raw ++ s'.octets ≡ s.octets
  pub long : header_size ≤ length raw
  pub bounded : length raw ≤ max_size

pub TookFrame-join :
    (max_size n : ℕ) (s t s'' s' : Source) (header payload raw : List ℕ)
    → Took header_size s header t
    → Took n t payload s''
    → ltb max_size (header_size + n) ≡ false
    → raw ≡ header ++ payload
    → s' ≡ s''
    → TookFrame max_size s raw s'
TookFrame-join max_size n s t s'' s' header payload raw h p q e e' =
    let total : length raw ≡ header_size + n =
      omega (arith, ap length e, length-append header payload, h.sized, p.sized) in
    record {
      split =
          (λ i. e i ++ (e' i).octets)
          ∙ append_assoc header payload s''.octets
          ∙ (λ i. header ++ p.split i)
          ∙ h.split;
      long = omega (arith, total);
      bounded = ground (arith, total);
    }

module _ {E : Type 0} where
  pub read_full_ok :
      (n : ℕ) (s : Source) (xs : List ℕ) (s' : Source)
      → read_full {E = E} n s ≡ ok (xs, s')
      → (n ≤ length s.octets) × (xs ≡ take n s.octets) × (s'.octets ≡ drop n s.octets)
  unfolding read_full
  read_full_ok n s xs s' h = ground arith

  pub read_full-Took :
      (n : ℕ) (s : Source) (xs : List ℕ) (s' : Source)
      → read_full {E = E} n s ≡ ok (xs, s')
      → Took n s xs s'
  read_full-Took n s xs s' h =
      let (p, q, r) = read_full_ok n s xs s' h in
      record {
        split = (λ i. q i ++ r i) ∙ take-append-drop n s.octets;
        sized = ap length q ∙ omega (arith, length-take n s.octets);
      }

  pub mid_frame-ok :
      (m : Result (RelayError E) (List ℕ × Source)) (r : List ℕ × Source)
      → mid_frame m ≡ ok r
      → m ≡ ok r
  mid_frame-ok (ok x) r h = h
  mid_frame-ok (err e) r h = cc

  -- The second read of a frame.
  unfoldable pub read_payload : ℕ → Source → Result (RelayError E) (List ℕ × Source)
  read_payload n s = if n == 0 then ok ([], s) else mid_frame (read_full n s)

  pub read_payload-suc :
      (n : ℕ) (s : Source) → read_payload (suc n) s ≡ mid_frame (read_full (suc n) s)
  unfolding read_payload
  read_payload-suc n s = ground arith

  pub read_payload-Took :
      (n : ℕ) (s : Source) (xs : List ℕ) (s' : Source)
      → read_payload n s ≡ ok (xs, s')
      → Took n s xs s'
  unfolding read_payload
  read_payload-Took zero s xs s' h =
      let (p, q) = ok_pair h in record { split = λ i. p i ++ (q i).octets; sized = ap length p }
  read_payload-Took (suc n) s xs s' h =
      read_full-Took (suc n) s xs s' (mid_frame-ok _ (xs, s') (sym (read_payload-suc n s) ∙ h))

  pub read_raw_frame-TookFrame :
      (s : Source) (max_size : ℕ) (raw : List ℕ) (s' : Source)
      → read_raw_frame {E = E} s max_size ≡ ok (raw, s')
      → TookFrame max_size s raw s'
  unfolding read_raw_frame read_payload
  read_raw_frame-TookFrame s max_size raw s' h =
      let ((header, t), h0, k0) = >>=-eq-ok (read_full {E = E} header_size s) _ h in
      let (_, h1, k1) =
        >>=-eq-ok (fail_if (not (bytes_eq (take 4 header) magic)) RelayError.bad_magic) _ k0 in
      let n = get_be (slice header 17 21) in
      let (_, h2, k2) =
        >>=-eq-ok (fail_if (ltb max_size (header_size + n)) RelayError.too_large) _ k1 in
      let ((payload, s''), h3, k3) = >>=-eq-ok (read_payload n t) _ k2 in
      let (p, q) = ok_pair k3 in
      TookFrame-join max_size n s t s'' s' header payload raw
        (read_full-Took header_size s header t h0) (read_payload-Took n t payload s'' h3)
        (fail_if-ok _ _ h2) p q

  pub read_deadlined-TookFrame :
      (d : Deadline) (s : Source) (max_size : ℕ) (raw : List ℕ) (s' : Source)
      → read_deadlined {E = E} d s max_size ≡ ok (raw, s')
      → TookFrame max_size s raw s'
  unfolding read_deadlined
  read_deadlined-TookFrame in_force s max_size raw s' h =
      read_raw_frame-TookFrame s max_size raw s' h
  read_deadlined-TookFrame on_closed_conn s max_size raw s' h = cc
  read_deadlined-TookFrame failed s max_size raw s' h = cc

  unfoldable pub parse_result : Result FrameError Frame → Result (RelayError E) Frame
  parse_result r = elim r [ ok f ↦ ok f | err e ↦ err (malformed e) ]

  pub parse_result-ok : (r : Result FrameError Frame) (f : Frame) → parse_result r ≡ ok f → r ≡ ok f
  unfolding parse_result
  parse_result-ok (ok g) f h = cc
  parse_result-ok (err e) f h = cc

  pub parse-ok : (raw : List ℕ) (f : Frame) → parse {E = E} raw ≡ ok f → unmarshal_binary raw ≡ ok f
  unfolding parse_result
  parse-ok raw f h = parse_result-ok (unmarshal_binary raw) f h

  pub record Accepted (hook : Option (HookFunc E)) (dir : Direction) (max_size : ℕ) (s : Source)
      (raw : List ℕ) (s' : Source) : Type 0 where
    pub taken : TookFrame max_size s raw s'
    pub admitted : Admitted hook dir max_size raw

  pub Accepted-cast :
      (hook : Option (HookFunc E)) (dir : Direction) (max_size : ℕ) (s : Source) {raw raw' : List ℕ}
      {s' s'' : Source}
      → raw ≡ raw'
      → s' ≡ s''
      → Accepted hook dir max_size s raw' s''
      → Accepted hook dir max_size s raw s'
  Accepted-cast hook dir max_size s p q h = rw (p, q) h

  pub accept-Accepted :
      (hook : Option (HookFunc E)) (dir : Direction) (max_size : ℕ) (turn : Turn) (s : Source)
      (raw : List ℕ) (s' : Source)
      → accept hook dir max_size turn s ≡ ok (raw, s')
      → Accepted hook dir max_size s raw s'
  unfolding accept
  accept-Accepted hook dir max_size turn s raw s' h =
      let (_, h0, k0) = >>=-eq-ok (fail_if turn.is_cancelled cancelled) _ h in
      let ((raw', s''), h1, k1) =
        >>=-eq-ok (read_deadlined {E = E} turn.read_deadline s max_size) _ k0 in
      let (f, h2, k2) = >>=-eq-ok (parse raw') _ k1 in
      let (_, h3, k3) = >>=-eq-ok (run_hook hook dir (header_of raw' f)) _ k2 in
      let (p, q) = ok_pair k3 in
      let took = read_deadlined-TookFrame turn.read_deadline s max_size raw' s'' h1 in
      Accepted-cast hook dir max_size s p q (record {
        taken = took;
        admitted = record {
          bounded = took.bounded;
          frame = f;
          parsed = parse-ok raw' f h2;
          hooked = h3;
        };
      })
