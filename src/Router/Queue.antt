-- ===== src/Router/Queue.antt =====
-- crates/babel-router/src/output_queue.rs: what is admitted to the output queue of an interface.
-- The semaphore and the channel of the tokio crate are interfaces, with the documented behaviour of
-- the calls; the charge of a packet, which counts allocations, is an argument.
pub mod Budget
use babel_rs.Base.{
  ℕ, ◌+◌, ◌-◌, ◌%◌, ◌≤◌, ◌≡◌, min, max, Bool, true, false, Option, none, some, List, [], ◌∷◌, ◌++◌,
  leb, ltb, ◌==◌, if◌then◌else◌, length,
}
use babel_rs.Base.Words.{saturating_add64, u32_mod, u64_max}
use babel_rs.Router.Scheduler.{QueuedIntent, OutboundIntent}

-- `Semaphore`: permits are taken if there are as many, and come back when a reservation is dropped.
pub record Semaphore (S R : Type 0) : Type 0 where
  pub semaphore_new : ℕ → S
  pub available : S → ℕ
  pub permits : R → ℕ
  pub try_acquire : S → ℕ → Option (R × S)
  pub release : S → R → S
  pub available-new : (n : ℕ) → available (semaphore_new n) ≡ n
  pub acquired :
      (s after : S) (n : ℕ) (r : R)
      → try_acquire s n ≡ some (r, after)
      → (permits r ≡ n) × (available after + n ≡ available s)
  pub available-release : (s : S) (r : R) → available (release s r) ≡ available s + permits r

-- `mpsc::channel` with a capacity: what waits in it, in order.
pub record Channel (C A : Type 0) : Type 0 where
  pub channel_new : ℕ → C
  pub waiting : C → List A
  pub try_send : C → A → Option C
  pub try_recv : C → Option (A × C)
  pub waiting-new : (n : ℕ) → waiting (channel_new n) ≡ []
  pub sent :
      (c after : C) (a : A) → try_send c a ≡ some after → waiting after ≡ waiting c ++ (a ∷ [])
  pub received :
      (c after : C) (a : A) → try_recv c ≡ some (a, after) → waiting c ≡ a ∷ waiting after

abbrev pub output_expiry_grace_ms : ℕ
output_expiry_grace_ms = 1000

-- `AtomicU64::fetch_add`.
abbrev pub fetch_add : ℕ → ℕ → ℕ
fetch_add counter n = (counter + n) % (u64_max + 1)

pub record QueueCounters : Type 0 where
  pub rejected_batches : ℕ
  pub rejected_tlvs : ℕ
  pub expired_batches : ℕ
  pub dropped_datagrams : ℕ
  pub expired_datagrams : ℕ
  pub send_timeouts : ℕ
  pub missed_deadlines : ℕ

abbrev pub no_losses : QueueCounters
no_losses = record {
  rejected_batches = 0;
  rejected_tlvs = 0;
  expired_batches = 0;
  dropped_datagrams = 0;
  expired_datagrams = 0;
  send_timeouts = 0;
  missed_deadlines = 0;
}

-- `OutputCounters`, of all the queues of a router.
pub record OutputCounters : Type 0 where
  pub dropped : ℕ
  pub missed_deadlines : ℕ

pub record OutputQueue (S C : Type 0) : Type 0 where
  pub generation : ℕ
  pub send : C
  pub budget : S
  pub budget_bytes : ℕ
  pub counters : QueueCounters
  pub totals : OutputCounters

module _ {S C : Type 0} where
  unfoldable pub invalidate : OutputQueue S C → OutputQueue S C
  invalidate q = record q { generation = fetch_add q.generation 1 }

  -- The answer of the callback, if the generation is still the current one.
  abbrev pub with_generation {ℓ} : {T : Type ℓ} → OutputQueue S C → ℕ → T → Option T
  with_generation q generation answer = if q.generation == generation then some answer else none

  abbrev pub count_expired_batches : OutputQueue S C → ℕ → OutputQueue S C
  count_expired_batches q count = record q {
    counters = record q.counters { expired_batches = fetch_add q.counters.expired_batches count };
  }

  abbrev pub drop_datagram : OutputQueue S C → Bool → Bool → OutputQueue S C
  drop_datagram q expired timed_out = record q {
    counters = record q.counters {
      dropped_datagrams = fetch_add q.counters.dropped_datagrams 1;
      expired_datagrams =
          if expired
          then fetch_add q.counters.expired_datagrams 1
          else q.counters.expired_datagrams;
      send_timeouts =
          if timed_out then fetch_add q.counters.send_timeouts 1 else q.counters.send_timeouts;
    };
    totals = record q.totals { dropped = fetch_add q.totals.dropped 1 };
  }

  abbrev pub missed_deadline : OutputQueue S C → OutputQueue S C
  missed_deadline q = record q {
    counters = record q.counters { missed_deadlines = fetch_add q.counters.missed_deadlines 1 };
    totals = record q.totals { missed_deadlines = fetch_add q.totals.missed_deadlines 1 };
  }

  abbrev pub reject : OutputQueue S C → ℕ → OutputQueue S C
  reject q tlvs = record q {
    counters = record q.counters {
      rejected_batches = fetch_add q.counters.rejected_batches 1;
      rejected_tlvs = fetch_add q.counters.rejected_tlvs tlvs;
    };
  }

module _ {N R S C : Type 0} (sem : Semaphore S R) (chan : Channel C (QueuedIntent N R)) where
  unfoldable pub queue_new : ℕ → ℕ → OutputCounters → OutputQueue S C
  queue_new capacity budget_bytes totals = record {
    generation = 0;
    send = chan.channel_new capacity;
    budget = sem.semaphore_new budget_bytes;
    budget_bytes = budget_bytes;
    counters = no_losses;
    totals = totals;
  }

  -- A permit for the charge, if it is a 32-bit number and there are as many.
  abbrev pub reserve : OutputQueue S C → ℕ → Option (R × S)
  reserve q charge = if ltb charge u32_mod then sem.try_acquire q.budget charge else none

  abbrev pub queued_of : OutputQueue S C → OutboundIntent N → ℕ → R → QueuedIntent N R
  queued_of q intent now_ms reservation = record {
    generation = q.generation;
    intent = intent;
    expires_ms = saturating_add64 (max intent.timing.deadline_ms now_ms) output_expiry_grace_ms;
    reservation = reservation;
  }

  -- An intent that does not fit the channel gives its reservation back.
  abbrev pub place_reserved : OutputQueue S C → ℕ → R × S → Option C → OutputQueue S C
  place_reserved q tlvs reserved none =
      reject (record q { budget = sem.release (reserved.1) (reserved.0) }) tlvs
  place_reserved q tlvs reserved (some send) = record q { budget = reserved.1; send = send }

  abbrev pub submit_reserved :
      OutputQueue S C → OutboundIntent N → ℕ → Option (R × S) → OutputQueue S C
  submit_reserved q intent now_ms none = reject q (length intent.packet.tlvs)
  submit_reserved q intent now_ms (some reserved) =
      place_reserved q (length intent.packet.tlvs) reserved
        (chan.try_send q.send (queued_of q intent now_ms (reserved.0)))

  unfoldable pub submit : OutputQueue S C → OutboundIntent N → ℕ → ℕ → OutputQueue S C
  submit q intent charge now_ms = submit_reserved q intent now_ms (reserve q charge)

  abbrev pub used_bytes : OutputQueue S C → ℕ
  used_bytes q = q.budget_bytes - sem.available q.budget
