-- ===== src/Session/Life.antt =====
-- What a connection of impl/go/sdk goes through, as a relation, and its end.
use npamp_protocol.Session.Closed.{
  Operation, operate, operate-IsSilent, receive_wire-IsDeaf, handed_on,
}
use npamp_protocol.Crypto.{Crypto}
use npamp_protocol.Session.Closing.{clear_closing, finish_close}
use npamp_protocol.Session.Handlers.{}
use npamp_protocol.Session.Receiving.{receive_wire}
use npamp_protocol.Session.Sending.{}
use npamp_protocol.Session.State.{Conn, zeroize, close}
use npamp_protocol.Session.Wire.{Write, whole}
use npamp_protocol.Prelude.{ℕ, List, [], ◌++◌, ◌≡◌, refl, inl, inr}
use npamp_protocol.Prelude.{Bool, true, false, Bool-cases}

module _ (c : Crypto) where
  -- What a connection may go through, with all that it writes and all that it hands on.
  pub data Life : Conn → List ℕ → List (ℕ × ℕ × List ℕ) → Conn → Type 0 where
    begin : (before : Conn) → Life before [] [] before
    operated :
        {before now : Conn} {out : List ℕ} {got : List (ℕ × ℕ × List ℕ)} (op : Operation)
        (w : Write)
        → Life before out got now
        → Life before (out ++ (operate c op w now).wire) got (operate c op w now).conn
    arrived :
        {before now : Conn} {out : List ℕ} {got : List (ℕ × ℕ × List ℕ)} (wire : List ℕ)
        → Life before out got now
        → Life before out
            (got ++ handed_on (receive_wire c wire now).action)
            (receive_wire c wire now).conn
    zeroized :
        {before now : Conn} {out : List ℕ} {got : List (ℕ × ℕ × List ℕ)}
        → Life before out got now
        → Life before out got (zeroize now)
    finished :
        {before now : Conn} {out : List ℕ} {got : List (ℕ × ℕ × List ℕ)} (acknowledged : Bool)
        → Life before out got now
        → Life before out got (finish_close acknowledged now)

  pub record IsDead (out : List ℕ) (got : List (ℕ × ℕ × List ℕ)) (now : Conn) : Type 0 where
    pub wrote : out ≡ []
    pub handed : got ≡ []
    pub closed : now.closed ≡ true

  close_stays :
      (acknowledged : Bool) (now : Conn)
      → now.closed ≡ true
      → (finish_close acknowledged now).closed ≡ true
  unfolding finish_close close zeroize clear_closing
  close_stays true now h = elim (Bool-cases now.shut) [ inl e ↦ rw (e, h) refl | inr e ↦ rw e refl ]
  close_stays false now h = elim (Bool-cases now.shut) [
    | inl e ↦ rw (e, h) refl
    | inr e ↦ rw e refl
  ]

  -- Once a connection is closed, whatever is called on it and whatever arrives, with whatever
  -- outcomes of writes, it writes no octet, hands nothing on, and stays closed.
  pub Life-IsDead :
      {before now : Conn} {out : List ℕ} {got : List (ℕ × ℕ × List ℕ)}
      → before.closed ≡ true
      → Life before out got now
      → IsDead out got now
  unfolding zeroize
  Life-IsDead h (begin before) = record { wrote = refl; handed = refl; closed = h }
  Life-IsDead h (operated {before} {now} {out} {got} op w life) =
      let d = Life-IsDead h life in
      let s = operate-IsSilent c w now d.closed op in
      record { wrote = rw (d.wrote, s.wire) refl; handed = d.handed; closed = rw s.conn d.closed }
  Life-IsDead h (arrived {before} {now} {out} {got} wire life) =
      let d = Life-IsDead h life in
      let r = receive_wire-IsDeaf c whole now d.closed wire in
      record { wrote = d.wrote; handed = rw (d.handed, r.handed) refl; closed = r.still }
  Life-IsDead h (zeroized life) =
      let d = Life-IsDead h life in record { wrote = d.wrote; handed = d.handed; closed = refl }
  Life-IsDead h (finished {before} {now} {out} {got} acknowledged life) =
      let d = Life-IsDead h life in
      record { wrote = d.wrote; handed = d.handed; closed = close_stays acknowledged now d.closed }
