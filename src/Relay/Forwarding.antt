-- ===== src/Relay/Forwarding.antt =====
-- What forward writes, against the octets that it reads (impl/go/relay/relay.go).
pub mod Taken
use npamp_protocol.Relay.Forwarding.Taken.{joined, Admitted, Accepted, accept-Accepted}
use npamp_protocol.Frame.{Frame, FrameError, unmarshal_binary, header_size, magic}
use npamp_protocol.Relay.{
  Source, RelayError, Direction, HookFunc, Deadline, in_force, on_closed_conn, failed, Turn,
  Forwarded,
}
use npamp_protocol.Relay.{
  read_full, read_raw_frame, read_deadlined, mid_frame, run_hook, parse, accept, header_of,
}
use npamp_protocol.Relay.{malformed, stuck, cancelled}
use npamp_protocol.Relay.{forward, write_then, stop}
use npamp_protocol.Prelude.{ℕ, zero, suc, ◌+◌, ◌≤◌, ◌≡◌, refl, sym, ap, ◌∙◌, inl, inr, arith}
use npamp_protocol.Prelude.{
  List, [], ◌∷◌, ◌++◌, All, length, take, drop, take-append-drop, length-take, length-append,
}
use npamp_protocol.Prelude.{Option, some, none, false, not, ltb, ◌==◌, if◌then◌else◌, bytes_eq}
use npamp_protocol.Prelude.{Result, ok, err, Result-cases, >>=-eq-ok, fail_if, fail_if-ok, ok_pair}
use npamp_protocol.Prelude.Bytes.{get_be, slice}
use mathlib.Core.List.{append_assoc}

module _ {E : Type 0} (hook : Option (HookFunc E)) (dir : Direction) (max_size : ℕ) where
  -- Every frame written whole is admitted; the frames, the octets of a frame cut off by a
  -- failed write and the octets not forwarded are the source's octets, in order.
  pub record Faithful (s : Source) (r : Forwarded E) : Type 0 where
    pub admitted : All (Admitted hook dir max_size) r.sent
    pub rest : List ℕ
    pub in_order : joined r.sent ++ (r.cut ++ rest) ≡ s.octets

  stop-Faithful : (s : Source) (e : RelayError E) → Faithful s (stop e)
  stop-Faithful s e = record { admitted = tt; rest = s.octets; in_order = refl }

  write_then-Faithful :
      (d : Deadline) (stops : Option ℕ) (s s' : Source) (raw : List ℕ) (later : Forwarded E)
      → Accepted hook dir max_size s raw s'
      → Faithful s' later
      → Faithful s (write_then d stops raw later)
  write_then-Faithful in_force none s s' raw later h k = record {
    admitted = (h.admitted, k.admitted);
    rest = k.rest;
    in_order =
        append_assoc raw (joined later.sent) (later.cut ++ k.rest)
        ∙ (λ i. raw ++ k.in_order i)
        ∙ h.taken.split;
  }
  write_then-Faithful in_force (some n) s s' raw later h k = record {
    admitted = tt;
    rest = drop n raw ++ s'.octets;
    in_order =
        sym (append_assoc (take n raw) (drop n raw) s'.octets)
        ∙ (λ i. take-append-drop n raw i ++ s'.octets)
        ∙ h.taken.split;
  }
  write_then-Faithful on_closed_conn stops s s' raw later h k = record {
    admitted = tt;
    rest = s.octets;
    in_order = refl;
  }
  write_then-Faithful failed stops s s' raw later h k = record {
    admitted = tt;
    rest = s.octets;
    in_order = refl;
  }

  -- One round, from what it accepts.
  unfoldable pub round : ℕ → (ℕ → Turn) → Result (RelayError E) (List ℕ × Source) → Forwarded E
  round fuel turns (err e) = stop e
  round fuel turns (ok (raw, s')) =
      write_then (turns 0).write_deadline (turns 0).write_stops_at raw
        (forward hook dir max_size fuel (λ n. turns (suc n)) s')

  pub forward-suc :
      (fuel : ℕ) (turns : ℕ → Turn) (s : Source)
      → forward hook dir max_size (suc fuel) turns s
        ≡ round fuel turns (accept hook dir max_size (turns 0) s)
  unfolding forward round
  forward-suc fuel turns s = refl

  -- Whatever the environment does, with any fuel: every frame that forward writes whole
  -- parses, is within the size bound and was admitted by the hook, and the octets written
  -- are a prefix of the octets read, unchanged and in order.
  pub forward-Faithful :
      (fuel : ℕ) (turns : ℕ → Turn) (s : Source)
      → Faithful s (forward hook dir max_size fuel turns s)
  unfolding forward round
  forward-Faithful zero turns s = stop-Faithful s stuck
  forward-Faithful (suc fuel) turns s =
      rw (forward-suc fuel turns s) (elim (Result-cases (accept hook dir max_size (turns 0) s)) [
        | inl ((raw, s'), e) ↦ rw e (
            write_then-Faithful (turns 0).write_deadline (turns 0).write_stops_at s s' raw _
              (accept-Accepted hook dir max_size (turns 0) s raw s' e)
              (forward-Faithful fuel (λ n. turns (suc n)) s'))
        | inr (e, p) ↦ rw p (stop-Faithful s e)
      ])
