-- ===== src/Router/Scheduler/Ready.antt =====
-- crates/babel-router/src/output.rs: the datagrams that wait for a paced sending.
use babel_rs.Base.{
  ℕ, min, Bool, ◌&&◌, ◌||◌, Option, none, some, List, [], ◌∷◌, ltb, ◌==◌, if◌then◌else◌, Bytes,
}
use babel_rs.Model.{IpAddr}

-- `ReadyDatagram`, and `ScheduledDatagram` with the same fields.
pub record ReadyDatagram (R : Type 0) : Type 0 where
  pub destination : IpAddr
  pub bytes : Bytes
  pub deadline_ms : ℕ
  pub expires_ms : ℕ
  pub reservations : List R

-- The least of two times, if there are any.
abbrev pub earlier : Option ℕ → ℕ → Option ℕ
earlier none t = some t
earlier (some u) t = some (min u t)

module _ {R : Type 0} where
  unfoldable pub expire_ready : List (ReadyDatagram R) → ℕ → List (ReadyDatagram R)
  expire_ready [] now_ms = []
  expire_ready (d ∷ rest) now_ms =
      let kept = expire_ready rest now_ms in if ltb now_ms d.expires_ms then d ∷ kept else kept

  abbrev pub send_at : ℕ → ReadyDatagram R → ℕ
  send_at next_send_ms d = min next_send_ms d.deadline_ms

  unfoldable pub ready_wake : ℕ → List (ReadyDatagram R) → Option ℕ
  ready_wake next_send_ms [] = none
  ready_wake next_send_ms (d ∷ rest) =
      earlier (ready_wake next_send_ms rest) (send_at next_send_ms d)

  -- Whether a datagram goes before another: by the time it is sent at, then by its deadline.
  abbrev pub goes_before : ℕ → ReadyDatagram R → ReadyDatagram R → Bool
  goes_before next_send_ms a b =
      ltb (send_at next_send_ms a) (send_at next_send_ms b)
      || (send_at next_send_ms a == send_at next_send_ms b && ltb a.deadline_ms b.deadline_ms)

  -- The first of the datagrams that none goes before, and the others in their order.
  unfoldable pub take_first :
      ℕ → ReadyDatagram R → List (ReadyDatagram R) → ReadyDatagram R × List (ReadyDatagram R)
  take_first next_send_ms d [] = (d, [])
  take_first next_send_ms d (e ∷ rest) =
      let (best, others) = take_first next_send_ms e rest in
      if goes_before next_send_ms best d then (best, d ∷ others) else (d, e ∷ rest)
