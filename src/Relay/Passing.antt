-- ===== src/Relay/Passing.antt =====
-- A stream of admitted frames passes the relay whole (impl/go/relay/relay.go).
use npamp_protocol.Frame.{header_size, magic}
use npamp_protocol.Frame.Header.{unmarshal_binary-Accepts}
use npamp_protocol.Relay.{Source, closed, Direction, HookFunc, in_force, Turn}
use npamp_protocol.Relay.{
  read_full, read_raw_frame, read_deadlined, run_hook, parse, accept, header_of, forward,
}
use npamp_protocol.Relay.Forwarding.Taken.{joined, Admitted, read_payload, read_payload-suc}
use npamp_protocol.Relay.Forwarding.{round, forward-suc}
use npamp_protocol.Prelude.{ℕ, zero, suc, ◌+◌, ◌≤◌, ◌≡◌, refl, sym, ap, ◌∙◌, arith}
use npamp_protocol.Prelude.{
  List, [], ◌∷◌, ◌++◌, All, length, take, drop, get_or, take-append-drop, take-append, drop-append,
  length-take, length-drop, length-append,
}
use npamp_protocol.Prelude.{Option, none, false, ltb, bytes_eq_refl}
use npamp_protocol.Prelude.{Result, ok, ◌>>◌}
use npamp_protocol.Prelude.Bytes.{get_be, slice, slice-append_le}
use mathlib.Core.List.{append_assoc}

-- Nothing is cancelled, and no deadline or write fails.
abbrev pub calm : Turn
calm = record {
  is_cancelled = false;
  read_deadline = in_force;
  write_deadline = in_force;
  write_stops_at = none;
}

abbrev pub from : List ℕ → Source
from bs = record { octets = bs; ends = closed }

module _ (E : Type 0) where
  read_full-append :
      (n : ℕ) (xs ys : List ℕ)
      → n ≡ length xs
      → read_full {E = E} n (from (xs ++ ys)) ≡ ok (xs, from ys)
  unfolding read_full
  read_full-append n xs ys e =
      let enough : ltb (length (xs ++ ys)) (length xs) ≡ false =
        ground (arith, length-append xs ys) in
      rw (e, enough, take-append xs ys, drop-append xs ys) refl

  read_payload-append :
      (n : ℕ) (xs ys : List ℕ)
      → n ≡ length xs
      → read_payload {E = E} n (from (xs ++ ys)) ≡ ok (xs, from ys)
  unfolding read_payload
  read_payload-append zero [] ys e = refl
  read_payload-append zero (x ∷ xs) ys e = absurd (omega arith)
  read_payload-append (suc n) xs ys e =
      read_payload-suc n (from (xs ++ ys)) ∙ rw (read_full-append (suc n) xs ys e) refl

  read_raw_frame-append :
      (max_size : ℕ) (header payload rest : List ℕ)
      → length header ≡ header_size
      → take 4 header ≡ magic
      → get_be (slice header 17 21) ≡ length payload
      → header_size + length payload ≤ max_size
      → read_raw_frame {E = E} (from (header ++ (payload ++ rest))) max_size
        ≡ ok (header ++ payload, from rest)
  unfolding read_raw_frame read_payload
  read_raw_frame-append max_size header payload rest long mag size bound =
      let fits : ltb max_size (header_size + length payload) ≡ false = ground arith in
      rw
        (
          read_full-append header_size header (payload ++ rest) (sym long),
          mag,
          bytes_eq_refl magic,
          size,
          fits,
        )
        (rw (read_payload-append (length payload) payload rest refl) refl)

front :
    (raw : List ℕ)
    → get_or raw 0 0 ≡ 0x4e
    → get_or raw 1 0 ≡ 0x50
    → get_or raw 2 0 ≡ 0x41
    → get_or raw 3 0 ≡ 0x4d
    → take 4 (take 36 raw) ≡ magic
front (a ∷ b ∷ c ∷ d ∷ raw) p q r s = λ i. p i ∷ q i ∷ r i ∷ s i ∷ []
front [] p q r s = absurd (omega arith)
front (a ∷ []) p q r s = absurd (omega arith)
front (a ∷ b ∷ []) p q r s = absurd (omega arith)
front (a ∷ b ∷ c ∷ []) p q r s = absurd (omega arith)

after_ok : {E A : Type 0} (r : Result E (Unit {0})) (k : Result E A) → r ≡ ok tt → (r >> k) ≡ k
after_ok r k h = rw h refl

module _ {E : Type 0} (hook : Option (HookFunc E)) (dir : Direction) (max_size : ℕ) where
  accept-append :
      (raw rest : List ℕ)
      → Admitted hook dir max_size raw
      → accept hook dir max_size calm (from (raw ++ rest)) ≡ ok (raw, from rest)
  unfolding accept read_deadlined
  accept-append raw rest h =
      let a = unmarshal_binary-Accepts raw h.frame h.parsed in
      let whole = take-append-drop 36 raw in
      let long : length (take 36 raw) ≡ 36 = omega (arith, length-take 36 raw, a.long) in
      let size : get_be (slice (take 36 raw) 17 21) ≡ length (drop 36 raw) =
        ap get_be (
          sym
            (slice-append_le (take 36 raw) (drop 36 raw) 17 21 (omega arith) (omega (arith, long)))
          ∙ ap (λ b. slice b 17 21) whole)
        ∙ a.sized
        ∙ sym (length-drop 36 raw) in
      let read : read_raw_frame {E = E} (from (raw ++ rest)) max_size ≡ ok (raw, from rest) =
        ap (λ b. read_raw_frame {E = E} (from b) max_size)
          ((λ i. sym whole i ++ rest) ∙ append_assoc (take 36 raw) (drop 36 raw) rest)
        ∙ read_raw_frame-append E max_size (take 36 raw) (drop 36 raw) rest long
            (front raw a.magic_0 a.magic_1 a.magic_2 a.magic_3) size
            (omega (arith, length-drop 36 raw, a.long, h.bounded))
        ∙ ap (λ b. ok (b, from rest)) whole in
      rw read (
        rw (parse, h.parsed)
          (after_ok (run_hook hook dir (header_of raw h.frame)) (ok (raw, from rest)) h.hooked))

  -- A stream of admitted frames that ends cleanly is forwarded whole, frame by frame, if nothing is
  -- cancelled and no deadline or write fails; forward then returns without an error.
  pub forward-joined :
      (raws : List (List ℕ))
      → All (Admitted hook dir max_size) raws
      → forward hook dir max_size (suc (length raws)) (λ n. calm) (from (joined raws))
        ≡ record { sent = raws; cut = []; outcome = none }
  unfolding round
  forward-joined [] h =
      forward-suc hook dir max_size 0 (λ n. calm) (from [])
      ∙ unfold accept read_deadlined read_raw_frame read_full in refl
  forward-joined (raw ∷ raws) h =
      forward-suc hook dir max_size (suc (length raws)) (λ n. calm) (from (raw ++ joined raws))
      ∙ rw (accept-append raw (joined raws) h.0, forward-joined raws h.1) refl
