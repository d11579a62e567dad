-- ===== src/Router/Scheduler/Batches.antt =====
-- What `enqueue` of crates/babel-router/src/output.rs does with an intent, and the datagrams' sizes.
use babel_rs.Base.{
  ℕ, ◌-◌, ◌≤◌, ◌≡◌, ◌≢◌, refl, sym, subst, ap, max, false, Option, none, some, List, [], ◌∷◌, ◌++◌,
  ◌==◌, arith, inl, inr, Bool-cases, if◌then◌else◌, ◌=?◌,
}
use babel_rs.Base.Map.{=?_refl}
use babel_rs.Base.Words.{saturating_add64, u64_max}
use babel_rs.Model.{IpAddr, ip_eq}
use babel_rs.Wire.{OutboundTlv}
use babel_rs.Engine.Api.{SendTiming}
use babel_rs.Router.Scheduler.{
  QueuedIntent, PendingBatch, OutputScheduler, deadline_margin_ms, latest_delay, merge, new_batch,
  put_batch, enqueue,
}
use babel_rs.Router.Scheduler.Jitter.{bounded}

module _ {N R : Type 0} where
  -- The batch that waits for a destination, its TLVs, and what an intent makes of it.
  unfoldable pub batch_for : IpAddr → List (PendingBatch N R) → Option (PendingBatch N R)
  batch_for d [] = none
  batch_for d (b ∷ bs) = if b.destination =? d then some b else batch_for d bs

  abbrev pub tlvs_of : Option (PendingBatch N R) → List (OutboundTlv N)
  tlvs_of none = []
  tlvs_of (some b) = b.tlvs

  abbrev joined : Option (PendingBatch N R) → QueuedIntent N R → ℕ → PendingBatch N R
  joined none queued release_ms = new_batch queued release_ms
  joined (some b) queued release_ms = merge b queued release_ms

differ : (a b : IpAddr) → a ≢ b → (a =? b) ≡ false
differ a b h = ground (arith, ip_eq.beq_iff a b)

-- A draw is at most its bound.
bounded_lem : (random m : ℕ) → m ≤ u64_max → (bounded random m).0 ≤ m
unfolding bounded
bounded_lem random m h = elim (Bool-cases (m == 0)) [
  | inl z ↦ rw z (omega arith)
  | inr nz ↦ rw nz (omega arith)
]

delay_lem :
    (timing : SendTiming) (now random : ℕ)
    → timing.deadline_ms ≤ u64_max
    → saturating_add64 now ((bounded random (latest_delay timing now)).0)
      ≤ max now (timing.deadline_ms - deadline_margin_ms)
delay_lem timing now random h =
    omega (arith, bounded_lem random (latest_delay timing now) (omega arith))

module _ {N R : Type 0} where
  put_batch-joined :
      (bs : List (PendingBatch N R)) (queued : QueuedIntent N R) (release_ms : ℕ)
      → batch_for queued.intent.destination (put_batch bs queued release_ms)
        ≡ some (joined (batch_for queued.intent.destination bs) queued release_ms)
  unfolding batch_for put_batch
  put_batch-joined [] queued release_ms = rw (=?_refl queued.intent.destination) refl
  put_batch-joined (b ∷ bs) queued release_ms =
      elim (Bool-cases (b.destination =? queued.intent.destination)) [
        | inl e ↦ rw (e, e) refl
        | inr e ↦ rw (e, e) (put_batch-joined bs queued release_ms)
      ]

  put_batch-other :
      (bs : List (PendingBatch N R)) (queued : QueuedIntent N R) (release_ms : ℕ) (d : IpAddr)
      → (queued.intent.destination =? d) ≡ false
      → batch_for d (put_batch bs queued release_ms) ≡ batch_for d bs
  unfolding batch_for put_batch
  put_batch-other [] queued release_ms d h = rw h refl
  put_batch-other (b ∷ bs) queued release_ms d h =
      elim (Bool-cases (b.destination =? queued.intent.destination)) [
        | inl e ↦
            let same = (ip_eq.beq_iff b.destination queued.intent.destination).0 e in
            let away : (b.destination =? d) ≡ false =
              subst (λ (x : IpAddr). (x =? d) ≡ false) (sym same) h in
            rw (e, away) refl
        | inr e ↦ rw e (
            ap (λ o. if b.destination =? d then some b else o)
              (put_batch-other bs queued release_ms d h))
      ]

  joined_lem :
      (o : Option (PendingBatch N R)) (queued : QueuedIntent N R) (release_ms : ℕ)
      → ((joined o queued release_ms).tlvs ≡ tlvs_of o ++ queued.intent.packet.tlvs)
        × ((joined o queued release_ms).release_ms ≤ release_ms)
        × ((joined o queued release_ms).deadline_ms ≤ queued.intent.timing.deadline_ms)
        × ((joined o queued release_ms).expires_ms ≤ queued.expires_ms)
  joined_lem none queued release_ms = (refl, omega arith, omega arith, omega arith)
  joined_lem (some b) queued release_ms = (refl, omega arith, omega arith, omega arith)

  -- After an intent with a 64-bit deadline is enqueued, one batch waits for its destination: the
  -- TLVs that waited for it before, and behind them those of the intent, to be released no later
  -- than five milliseconds before the intent's deadline (or now), with a deadline and an expiry no
  -- later than the intent's. What waits for another destination is not changed.
  pub enqueue_lem :
      (s : OutputScheduler N R) (queued : QueuedIntent N R) (now : ℕ)
      → queued.intent.timing.deadline_ms ≤ u64_max
      → ((b : PendingBatch N R) × (batch_for queued.intent.destination
              (enqueue s queued now).pending
            ≡ some b)
          × (b.tlvs
              ≡ tlvs_of (batch_for queued.intent.destination s.pending)
                ++ queued.intent.packet.tlvs)
          × (b.release_ms ≤ max now (queued.intent.timing.deadline_ms - deadline_margin_ms))
          × (b.deadline_ms ≤ queued.intent.timing.deadline_ms)
          × (b.expires_ms ≤ queued.expires_ms))
        × ((d : IpAddr)
            → queued.intent.destination ≢ d
            → batch_for d (enqueue s queued now).pending ≡ batch_for d s.pending)
  unfolding enqueue
  enqueue_lem s queued now h =
      let d = queued.intent.destination in
      let release =
        saturating_add64 now ((bounded s.random (latest_delay queued.intent.timing now)).0) in
      let (tlvs, released, deadline, expiry) = joined_lem (batch_for d s.pending) queued release in
      let low = delay_lem queued.intent.timing now s.random h in
      (
        (
          joined (batch_for d s.pending) queued release,
          put_batch-joined s.pending queued release,
          tlvs,
          omega arith,
          deadline,
          expiry,
        ),
        λ other differs. put_batch-other s.pending queued release other (differ d other differs),
      )
