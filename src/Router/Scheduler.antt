-- ===== src/Router/Scheduler.antt =====
-- crates/babel-router/src/output.rs: the output scheduler of an interface. A reservation of the
-- output queue is a value of the type `R` that is only carried along.
pub mod Jitter
pub mod Ready
pub mod Times
pub mod Wakes
pub mod Batches
pub mod Reached
use babel_rs.Base.{
  ℕ, suc, ◌+◌, ◌-◌, min, Bool, true, false, not, ◌&&◌, ◌||◌, Option, none, some, List, [], ◌∷◌,
  ◌++◌, ltb, leb, ◌==◌, if◌then◌else◌, Bytes, length, Eq, ◌=?◌,
}
use babel_rs.Base.Results.{Result, ok, err}
use babel_rs.Base.Words.{saturating_add64}
use babel_rs.Model.{IpNet, IpAddr, ip_eq}
use babel_rs.Wire.{OutboundTlv, OutboundPacket, WireError}
use babel_rs.Wire.Packetizer.{encode_packets}
use babel_rs.Engine.Api.{SendTiming}
use babel_rs.Router.Scheduler.Jitter.{random_new, bounded}
use babel_rs.Router.Scheduler.Ready.{
  ReadyDatagram, expire_ready, earlier, send_at, ready_wake, take_first,
}

abbrev pub default_pacing_ms : ℕ
default_pacing_ms = 2

abbrev pub deadline_margin_ms : ℕ
deadline_margin_ms = 5

pub record OutboundIntent (N : Type 0) : Type 0 where
  pub destination : IpAddr
  pub packet : OutboundPacket N
  pub timing : SendTiming

pub record QueuedIntent (N R : Type 0) : Type 0 where
  pub generation : ℕ
  pub intent : OutboundIntent N
  pub expires_ms : ℕ
  pub reservation : R

pub record PendingBatch (N R : Type 0) : Type 0 where
  pub destination : IpAddr
  pub tlvs : List (OutboundTlv N)
  pub release_ms : ℕ
  pub deadline_ms : ℕ
  pub expires_ms : ℕ
  pub reservations : List R

pub record OutputScheduler (N R : Type 0) : Type 0 where
  pub pending : List (PendingBatch N R)
  pub ready : List (ReadyDatagram R)
  pub next_send_ms : ℕ
  pub pacing_ms : ℕ
  pub random : ℕ

-- The longest delay of an intent: its jitter, within what the margin leaves before its deadline.
abbrev pub latest_delay : SendTiming → ℕ → ℕ
latest_delay timing now_ms =
    let remaining = timing.deadline_ms - now_ms in
    min (remaining - min deadline_margin_ms remaining) timing.max_jitter_ms

module _ {N R : Type 0} where
  abbrev pub with_pacing : ℕ → ℕ → OutputScheduler N R
  with_pacing seed pacing_ms = record {
    pending = [];
    ready = [];
    next_send_ms = 0;
    pacing_ms = pacing_ms;
    random = random_new seed;
  }

  abbrev pub scheduler_new : ℕ → OutputScheduler N R
  scheduler_new seed = with_pacing seed default_pacing_ms

  abbrev pub merge : PendingBatch N R → QueuedIntent N R → ℕ → PendingBatch N R
  merge batch queued release_ms = record {
    destination = batch.destination;
    tlvs = batch.tlvs ++ queued.intent.packet.tlvs;
    release_ms = min batch.release_ms release_ms;
    deadline_ms = min batch.deadline_ms queued.intent.timing.deadline_ms;
    expires_ms = min batch.expires_ms queued.expires_ms;
    reservations = batch.reservations ++ (queued.reservation ∷ []);
  }

  abbrev pub new_batch : QueuedIntent N R → ℕ → PendingBatch N R
  new_batch queued release_ms = record {
    destination = queued.intent.destination;
    tlvs = queued.intent.packet.tlvs;
    release_ms = release_ms;
    deadline_ms = queued.intent.timing.deadline_ms;
    expires_ms = queued.expires_ms;
    reservations = queued.reservation ∷ [];
  }

  -- The first batch for the destination takes the intent, or else a new one at the end.
  unfoldable pub put_batch :
      List (PendingBatch N R) → QueuedIntent N R → ℕ → List (PendingBatch N R)
  put_batch [] queued release_ms = new_batch queued release_ms ∷ []
  put_batch (batch ∷ rest) queued release_ms =
      let later = put_batch rest queued release_ms in
      if batch.destination =? queued.intent.destination
      then merge batch queued release_ms ∷ rest
      else batch ∷ later

  unfoldable pub enqueue : OutputScheduler N R → QueuedIntent N R → ℕ → OutputScheduler N R
  enqueue s queued now_ms =
      let (delay, random) = bounded s.random (latest_delay queued.intent.timing now_ms) in
      record s {
        pending = put_batch s.pending queued (saturating_add64 now_ms delay);
        random = random;
      }

  -- The batches that have not expired, and the reservations of those that have.
  unfoldable pub expire_pending : List (PendingBatch N R) → ℕ → List (PendingBatch N R) × ℕ
  expire_pending [] now_ms = ([], 0)
  expire_pending (batch ∷ rest) now_ms =
      let (kept, count) = expire_pending rest now_ms in
      if leb batch.expires_ms now_ms
      then (kept, length batch.reservations + count)
      else (batch ∷ kept, count)

  unfoldable pub expire : OutputScheduler N R → ℕ → (ℕ × ℕ) × OutputScheduler N R
  expire s now_ms =
      let (pending, batches) = expire_pending s.pending now_ms in
      let ready = expire_ready s.ready now_ms in
      ((batches, length s.ready - length ready), record s { pending = pending; ready = ready })

  abbrev pub batch_wake : PendingBatch N R → ℕ
  batch_wake batch = min batch.release_ms batch.deadline_ms

  unfoldable pub pending_wake : List (PendingBatch N R) → Option ℕ
  pending_wake [] = none
  pending_wake (batch ∷ rest) = earlier (pending_wake rest) (batch_wake batch)

  unfoldable pub next_wake_ms : OutputScheduler N R → Option ℕ
  next_wake_ms s = elim (ready_wake s.next_send_ms s.ready) [
    | none ↦ pending_wake s.pending
    | some t ↦ earlier (pending_wake s.pending) t
  ]

  abbrev pub ready_of : PendingBatch N R → Bytes → ReadyDatagram R
  ready_of batch bytes = record {
    destination = batch.destination;
    bytes = bytes;
    deadline_ms = batch.deadline_ms;
    expires_ms = batch.expires_ms;
    reservations = batch.reservations;
  }

  abbrev pub ready_all : PendingBatch N R → List Bytes → List (ReadyDatagram R)
  ready_all batch [] = []
  ready_all batch (bytes ∷ rest) = ready_of batch bytes ∷ ready_all batch rest

  abbrev pub is_due : PendingBatch N R → ℕ → Bool
  is_due batch now_ms = leb batch.release_ms now_ms || leb batch.deadline_ms now_ms

  -- The datagram that is due next, if any, of those that are ready.
  unfoldable pub pop_from :
      List (ReadyDatagram R)
      → OutputScheduler N R
      → ℕ
      → Option (ReadyDatagram R) × OutputScheduler N R
  pop_from [] s now_ms = (none, s)
  pop_from (d ∷ rest) s now_ms =
      let (first, others) = take_first s.next_send_ms d rest in
      if ltb now_ms (send_at s.next_send_ms first) then (none, s) else (
        some first,
        record s { ready = others; next_send_ms = saturating_add64 now_ms s.pacing_ms },
      )

  abbrev pub pop_ready : OutputScheduler N R → ℕ → Option (ReadyDatagram R) × OutputScheduler N R
  pop_ready s now_ms = pop_from s.ready s now_ms

module _ {N R : Type 0} ⦃net : IpNet N⦄ where
  -- The batches that are due are encoded in turn; one that cannot be encoded is dropped, and the
  -- batches behind it stay.
  unfoldable pub packetize :
      List (PendingBatch N R)
      → List (ReadyDatagram R)
      → ℕ
      → ℕ
      → Result WireError (Unit {0}) × (List (PendingBatch N R) × List (ReadyDatagram R))
  packetize [] ready now_ms payload_budget = (ok tt, ([], ready))
  packetize (batch ∷ rest) ready now_ms payload_budget = elim (is_due batch now_ms) [
    | false ↦
        let (result, after) = packetize rest ready now_ms payload_budget in
        (result, (batch ∷ after.0, after.1))
    | true ↦ elim (encode_packets (record { tlvs = batch.tlvs }) payload_budget) [
      | err e ↦ (err e, (rest, ready))
      | ok packets ↦ packetize rest (ready ++ ready_all batch packets) now_ms payload_budget
    ]
  ]

  unfoldable pub packetize_due :
      OutputScheduler N R → ℕ → ℕ → Result WireError (Unit {0}) × OutputScheduler N R
  packetize_due s now_ms payload_budget =
      let (result, after) = packetize s.pending s.ready now_ms payload_budget in
      (result, record s { pending = after.0; ready = after.1 })

  unfoldable pub pop_due :
      OutputScheduler N R
      → ℕ
      → ℕ
      → Result WireError (Option (ReadyDatagram R)) × OutputScheduler N R
  pop_due s now_ms payload_budget =
      let (result, packed) = packetize_due s now_ms payload_budget in
      let (popped, after) = pop_ready packed now_ms in
      elim result [ err e ↦ (err e, packed) | ok _ ↦ (ok popped, after) ]
