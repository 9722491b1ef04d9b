-- ===== src/Relay/Ending.antt =====
-- forward ends by itself (impl/go/relay/relay.go): the fuel of the model is no limit.
use npamp_protocol.Relay.Forwarding.Taken.{parse_result, accept-Accepted}
use npamp_protocol.Relay.Forwarding.{round, forward-suc}
use npamp_protocol.Frame.{Frame, FrameError, unmarshal_binary, header_size, magic}
use npamp_protocol.Relay.{
  Source, StreamEnd, closed, broken, RelayError, Direction, FrameHeader, HookFunc, Deadline,
  in_force, on_closed_conn, failed, Turn, Forwarded,
}
use npamp_protocol.Relay.{
  read_full, read_raw_frame, read_deadlined, mid_frame, cut_short, short_read, run_hook, parse,
  accept, header_of,
}
use npamp_protocol.Relay.{stuck, cancelled, rejected}
use npamp_protocol.Relay.{forward, write_then, stop}
use npamp_protocol.Prelude.{ℕ, zero, suc, ◌+◌, ◌<◌, ◌≢◌, ap, inl, inr, arith}
use npamp_protocol.Prelude.Bytes.{get_be, slice}
use npamp_protocol.Prelude.{List, [], ◌++◌, length, length-append}
use npamp_protocol.Prelude.{
  Option, some, none, Bool, true, false, not, ltb, ◌==◌, bytes_eq, take, if◌then◌else◌,
}
use npamp_protocol.Prelude.{Result, ok, err, ◌>>=◌, Result-cases, fail_if}

-- An error that the Go code can return.
IsGo : {E : Type 0} → RelayError E → Type 0
IsGo stuck = ⊥
IsGo e = Unit {0}

IsGoResult {ℓ} : {E : Type 0} {A : Type ℓ} → Result (RelayError E) A → Type 0
IsGoResult (ok a) = Unit {0}
IsGoResult (err e) = IsGo e

record GoResult {ℓ} {E : Type 0} {A : Type ℓ} (m : Result (RelayError E) A) : Type 0 where
  is_go : IsGoResult m

module _ {E : Type 0} where
  >>=-GoResult {ℓ κ} :
      {A : Type ℓ} {B : Type κ} (m : Result (RelayError E) A) (f : A → Result (RelayError E) B)
      → GoResult m
      → ((a : A) → GoResult (f a))
      → GoResult (m >>= f)
  unfolding IsGoResult
  >>=-GoResult (ok a) f h k = k a
  >>=-GoResult (err e) f h k = record { is_go = h.is_go }

  fail_if-GoResult : (t : Bool) (e : RelayError E) → IsGo e → GoResult (fail_if t e)
  unfolding IsGoResult
  fail_if-GoResult true e h = record { is_go = h }
  fail_if-GoResult false e h = record { is_go = tt }

  if-GoResult {ℓ} :
      {A : Type ℓ} (t : Bool) (m n : Result (RelayError E) A)
      → GoResult m
      → GoResult n
      → GoResult (if t then m else n)
  if-GoResult true m n h k = h
  if-GoResult false m n h k = k

  cut_short-IsGo : (e : RelayError E) → IsGo e → IsGo (cut_short e)
  unfolding IsGo
  cut_short-IsGo RelayError.eof h = tt
  cut_short-IsGo RelayError.unexpected_eof h = tt
  cut_short-IsGo RelayError.transport h = tt
  cut_short-IsGo RelayError.bad_magic h = tt
  cut_short-IsGo RelayError.too_large h = tt
  cut_short-IsGo RelayError.deadline_error h = tt
  cut_short-IsGo RelayError.cancelled h = tt
  cut_short-IsGo RelayError.write_error h = tt
  cut_short-IsGo RelayError.stuck h = h
  cut_short-IsGo (RelayError.malformed e) h = tt
  cut_short-IsGo (RelayError.rejected e) h = tt

  mid_frame-GoResult :
      (m : Result (RelayError E) (List ℕ × Source)) → GoResult m → GoResult (mid_frame m)
  unfolding IsGoResult
  mid_frame-GoResult (ok r) h = record { is_go = tt }
  mid_frame-GoResult (err e) h = record { is_go = cut_short-IsGo e h.is_go }

  parse_result-GoResult : (r : Result FrameError Frame) → GoResult (parse_result {E = E} r)
  unfolding IsGoResult IsGo parse_result
  parse_result-GoResult (ok f) = record { is_go = tt }
  parse_result-GoResult (err e) = record { is_go = tt }

  hooked : Result E (Unit {0}) → Result (RelayError E) (Unit {0})
  hooked r = elim r [ ok u ↦ ok tt | err e ↦ err (rejected e) ]

  hooked-GoResult : (r : Result E (Unit {0})) → GoResult (hooked r)
  unfolding IsGoResult IsGo hooked
  hooked-GoResult (ok u) = record { is_go = tt }
  hooked-GoResult (err e) = record { is_go = tt }

  run_hook-GoResult :
      (hook : Option (HookFunc E)) (dir : Direction) (h : FrameHeader)
      → GoResult (run_hook hook dir h)
  unfolding IsGoResult hooked
  run_hook-GoResult none dir h = record { is_go = tt }
  run_hook-GoResult (some f) dir h = hooked-GoResult (f dir h)

short_read-IsGo : (E : Type 0) (n : ℕ) (d : StreamEnd) → IsGo {E = E} (short_read n d)
unfolding IsGo short_read
short_read-IsGo E n broken = tt
short_read-IsGo E zero closed = tt
short_read-IsGo E (suc n) closed = tt

module _ {E : Type 0} where
  read_full-GoResult : (n : ℕ) (s : Source) → GoResult (read_full {E = E} n s)
  unfolding read_full IsGoResult
  read_full-GoResult n s =
      if-GoResult (ltb (length s.octets) n) _ _
        (record { is_go = short_read-IsGo E (length s.octets) s.ends }) (record { is_go = tt })

  read_raw_frame-GoResult :
      (s : Source) (max_size : ℕ) → GoResult (read_raw_frame {E = E} s max_size)
  unfolding read_raw_frame IsGo IsGoResult
  read_raw_frame-GoResult s max_size =
      let payload_of : ℕ → Source → Result (RelayError E) (List ℕ × Source) =
        λ n t. if n == 0 then ok ([], t) else mid_frame (read_full n t) in
      >>=-GoResult (read_full header_size s) _ (read_full-GoResult header_size s) (λ r.
        let n = get_be (slice r.0 17 21) in
        let t = not (bytes_eq (take 4 r.0) magic) in
        let u = ltb max_size (header_size + n) in
        >>=-GoResult (fail_if t RelayError.bad_magic) _ (fail_if-GoResult t RelayError.bad_magic tt)
          (λ _.
            >>=-GoResult (fail_if u RelayError.too_large) _
              (fail_if-GoResult u RelayError.too_large tt)
              (λ _.
                >>=-GoResult (payload_of n r.1) (λ q. ok (r.0 ++ q.0, q.1))
                  (if-GoResult (n == 0) (ok ([], r.1)) _ (record { is_go = tt })
                    (mid_frame-GoResult _ (read_full-GoResult n r.1)))
                  (λ _. record { is_go = tt }))))

  read_deadlined-GoResult :
      (d : Deadline) (s : Source) (max_size : ℕ) → GoResult (read_deadlined {E = E} d s max_size)
  unfolding read_deadlined IsGoResult IsGo
  read_deadlined-GoResult in_force s max_size = read_raw_frame-GoResult s max_size
  read_deadlined-GoResult on_closed_conn s max_size = record { is_go = tt }
  read_deadlined-GoResult failed s max_size = record { is_go = tt }

  parse-GoResult : (raw : List ℕ) → GoResult (parse {E = E} raw)
  unfolding parse_result
  parse-GoResult raw = parse_result-GoResult (unmarshal_binary raw)

  IsGoResult_err {ℓ} : {A : Type ℓ} (e : RelayError E) → GoResult {A = A} (err e) → IsGo e
  unfolding IsGoResult
  IsGoResult_err e h = h.is_go

module _ {E : Type 0} (hook : Option (HookFunc E)) (dir : Direction) (max_size : ℕ) where
  accept-GoResult : (turn : Turn) (s : Source) → GoResult (accept hook dir max_size turn s)
  unfolding accept IsGo IsGoResult
  accept-GoResult turn s =
      >>=-GoResult (fail_if turn.is_cancelled cancelled) _
        (fail_if-GoResult turn.is_cancelled cancelled tt)
        (λ _.
          >>=-GoResult (read_deadlined turn.read_deadline s max_size) _
            (read_deadlined-GoResult turn.read_deadline s max_size)
            (λ r. >>=-GoResult (parse r.0) _ (parse-GoResult r.0) (λ f.
              >>=-GoResult (run_hook hook dir (header_of r.0 f)) _
                (run_hook-GoResult hook dir (header_of r.0 f)) (λ _. record { is_go = tt }))))

  IsGoOutcome : Option (RelayError E) → Type 0
  IsGoOutcome none = Unit {0}
  IsGoOutcome (some e) = IsGo e

  HasGoOutcome : Forwarded E → Type 0
  HasGoOutcome r = IsGoOutcome r.outcome

  stop-HasGoOutcome : (e : RelayError E) → IsGo e → HasGoOutcome (stop e)
  unfolding IsGo IsGoOutcome HasGoOutcome
  stop-HasGoOutcome RelayError.eof h = tt
  stop-HasGoOutcome RelayError.unexpected_eof h = tt
  stop-HasGoOutcome RelayError.transport h = tt
  stop-HasGoOutcome RelayError.bad_magic h = tt
  stop-HasGoOutcome RelayError.too_large h = tt
  stop-HasGoOutcome RelayError.deadline_error h = tt
  stop-HasGoOutcome RelayError.cancelled h = tt
  stop-HasGoOutcome RelayError.write_error h = tt
  stop-HasGoOutcome RelayError.stuck h = h
  stop-HasGoOutcome (RelayError.malformed e) h = tt
  stop-HasGoOutcome (RelayError.rejected e) h = tt

  write_then-HasGoOutcome :
      (d : Deadline) (stops : Option ℕ) (raw : List ℕ) (later : Forwarded E)
      → HasGoOutcome later
      → HasGoOutcome (write_then d stops raw later)
  unfolding IsGo IsGoOutcome HasGoOutcome
  write_then-HasGoOutcome in_force none raw later h = h
  write_then-HasGoOutcome in_force (some k) raw later h = tt
  write_then-HasGoOutcome on_closed_conn stops raw later h = tt
  write_then-HasGoOutcome failed stops raw later h = tt

  forward-HasGoOutcome :
      (fuel : ℕ) (turns : ℕ → Turn) (s : Source)
      → length s.octets < fuel
      → HasGoOutcome (forward hook dir max_size fuel turns s)
  unfolding round
  forward-HasGoOutcome zero turns s h = absurd (omega arith)
  forward-HasGoOutcome (suc fuel) turns s h =
      rw (forward-suc hook dir max_size fuel turns s)
        (elim (Result-cases (accept hook dir max_size (turns 0) s)) [
          | inl ((raw, s'), e) ↦
              let took = (accept-Accepted hook dir max_size (turns 0) s raw s' e).taken in
              rw e (
                write_then-HasGoOutcome (turns 0).write_deadline (turns 0).write_stops_at raw _ (
                  forward-HasGoOutcome fuel (λ n. turns (suc n)) s'
                    (omega
                      (arith, h, took.long, ap length took.split, length-append raw s'.octets))))
          | inr (e, p) ↦
              rw p (stop-HasGoOutcome e (IsGoResult_err e (rw p at (accept-GoResult (turns 0) s))))
        ])

  IsGoOutcome-ne-stuck : (o : Option (RelayError E)) → IsGoOutcome o → o ≢ some stuck
  unfolding IsGo IsGoOutcome
  IsGoOutcome-ne-stuck o h p = rw p at h

  -- With more fuel than the source has octets, forward never runs out of it, whatever the
  -- environment does.
  pub forward-ne-stuck :
      (fuel : ℕ) (turns : ℕ → Turn) (s : Source)
      → length s.octets < fuel
      → (forward hook dir max_size fuel turns s).outcome ≢ some stuck
  unfolding HasGoOutcome
  forward-ne-stuck fuel turns s h =
      IsGoOutcome-ne-stuck (forward hook dir max_size fuel turns s).outcome
        (forward-HasGoOutcome fuel turns s h)
