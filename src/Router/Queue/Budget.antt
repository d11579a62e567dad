-- ===== src/Router/Queue/Budget.antt =====
-- The byte budget of crates/babel-router/src/output_queue.rs, over any order of calls.
use babel_rs.Base.{
  ℕ, Bool, ◌+◌, ◌≤◌, ◌≡◌, refl, sym, subst, ap, ◌∙◌, All, All-append, All-split, Option, none, some,
  List, [], ◌∷◌, ◌++◌, arith, inl, inr, Bool-cases, ltb,
}
use babel_rs.Base.Words.{u32_mod}
use babel_rs.Wire.{OutboundPacket}
use babel_rs.Router.Scheduler.{QueuedIntent, OutboundIntent}
use babel_rs.Router.Queue.{
  Semaphore, Channel, OutputCounters, OutputQueue, invalidate, drop_datagram, missed_deadline,
  count_expired_batches, queue_new, reserve, queued_of, place_reserved, submit_reserved, submit,
  used_bytes,
}

none-some : {A : Type 0} (a : A) → none ≡ some a → ⊥
none-some a h = cc

module _ {N R S C : Type 0} (sem : Semaphore S R) (chan : Channel C (QueuedIntent N R))
    (packet_charge : OutboundPacket N → ℕ) where
  -- The charges of the packets of some intents.
  abbrev pub charges : List (QueuedIntent N R) → ℕ
  charges [] = 0
  charges (x ∷ xs) = packet_charge x.intent.packet + charges xs

  -- The states of a queue, and the intents that were received from it and whose reservations were
  -- not dropped yet.
  pub data Reached : OutputQueue S C → List (QueuedIntent N R) → Type 0 where
    started :
        (capacity budget_bytes : ℕ) (totals : OutputCounters)
        → Reached (queue_new sem chan capacity budget_bytes totals) []
    submitted :
        (q : OutputQueue S C) (held : List (QueuedIntent N R)) (intent : OutboundIntent N)
        (now_ms : ℕ)
        → Reached q held
        → Reached (submit sem chan q intent (packet_charge intent.packet) now_ms) held
    taken :
        (q : OutputQueue S C) (held : List (QueuedIntent N R)) (queued : QueuedIntent N R)
        (after : C)
        → chan.try_recv q.send ≡ some (queued, after)
        → Reached q held
        → Reached (record q { send = after }) (queued ∷ held)
    dropped :
        (q : OutputQueue S C) (before : List (QueuedIntent N R)) (x : QueuedIntent N R)
        (behind : List (QueuedIntent N R))
        → Reached q (before ++ (x ∷ behind))
        → Reached (record q { budget = sem.release q.budget x.reservation }) (before ++ behind)
    counted_drop :
        (q : OutputQueue S C) (held : List (QueuedIntent N R)) (expired timed_out : Bool)
        → Reached q held
        → Reached (drop_datagram q expired timed_out) held
    counted_miss :
        (q : OutputQueue S C) (held : List (QueuedIntent N R))
        → Reached q held
        → Reached (missed_deadline q) held
    counted_expiry :
        (q : OutputQueue S C) (held : List (QueuedIntent N R)) (count : ℕ)
        → Reached q held
        → Reached (count_expired_batches q count) held
    invalidated :
        (q : OutputQueue S C) (held : List (QueuedIntent N R))
        → Reached q held
        → Reached (invalidate q) held

  charges-append : (xs ys : List (QueuedIntent N R)) → charges (xs ++ ys) ≡ charges xs + charges ys
  charges-append [] ys = omega arith
  charges-append (x ∷ xs) ys = omega (arith, charges-append xs ys)

  -- A reservation has the permits that its intent is charged.
  IsCharged : QueuedIntent N R → Type 0
  IsCharged x = sem.permits x.reservation ≡ packet_charge x.intent.packet

  -- The reservations that are out have their charges, which are what is missing from the budget.
  record IsBalanced (q : OutputQueue S C) (held : List (QueuedIntent N R)) : Type 0 where
    waiting_charged : All IsCharged (chan.waiting q.send)
    held_charged : All IsCharged held
    balance :
        sem.available q.budget + (charges (chan.waiting q.send) + charges held) ≡ q.budget_bytes

  reserve_lem :
      (q : OutputQueue S C) (charge : ℕ) (r : R) (after : S)
      → reserve sem chan q charge ≡ some (r, after)
      → (sem.permits r ≡ charge) × (sem.available after + charge ≡ sem.available q.budget)
  reserve_lem q charge r after h = elim (Bool-cases (ltb charge u32_mod)) [
    | inl e ↦ sem.acquired q.budget after charge r (rw e at h)
    | inr e ↦ absurd (none-some (r, after) (rw e at h))
  ]

  place_reserved-IsBalanced :
      (q : OutputQueue S C) (held : List (QueuedIntent N R)) (queued : QueuedIntent N R) (tlvs : ℕ)
      (after : S) (o : Option C)
      → chan.try_send q.send queued ≡ o
      → IsCharged queued
      → sem.available after + packet_charge queued.intent.packet ≡ sem.available q.budget
      → IsBalanced q held
      → IsBalanced (place_reserved sem chan q tlvs (queued.reservation, after) o) held
  unfolding IsCharged
  place_reserved-IsBalanced q held queued tlvs after none e charged left h = record {
    waiting_charged = h.waiting_charged;
    held_charged = h.held_charged;
    balance = omega (arith, h.balance, charged, sem.available-release after queued.reservation);
  }
  place_reserved-IsBalanced q held queued tlvs after (some send) e charged left h =
      let now_waiting = chan.sent q.send send queued e in
      record {
        waiting_charged =
            subst (All IsCharged) (sym now_waiting)
              (All-append IsCharged _ _ h.waiting_charged (charged, tt));
        held_charged = h.held_charged;
        balance =
            let grown : charges (chan.waiting send)
                ≡ charges (chan.waiting q.send) + charges (queued ∷ []) =
              ap charges now_waiting ∙ charges-append (chan.waiting q.send) (queued ∷ []) in
            omega (arith, h.balance);
      }

  submit_reserved-IsBalanced :
      (q : OutputQueue S C) (held : List (QueuedIntent N R)) (intent : OutboundIntent N)
      (now_ms : ℕ) (o : Option (R × S))
      → reserve sem chan q (packet_charge intent.packet) ≡ o
      → IsBalanced q held
      → IsBalanced (submit_reserved sem chan q intent now_ms o) held
  unfolding IsCharged
  submit_reserved-IsBalanced q held intent now_ms none e h = record {
    waiting_charged = h.waiting_charged;
    held_charged = h.held_charged;
    balance = h.balance;
  }
  submit_reserved-IsBalanced q held intent now_ms (some (r, after)) e h =
      let (charged, left) = reserve_lem q (packet_charge intent.packet) r after e in
      place_reserved-IsBalanced q held (queued_of sem chan q intent now_ms r) _ after _ refl charged
        left h

  dropped-IsBalanced :
      (q : OutputQueue S C) (before : List (QueuedIntent N R)) (x : QueuedIntent N R)
      (behind : List (QueuedIntent N R))
      → IsBalanced q (before ++ (x ∷ behind))
      → IsBalanced (record q { budget = sem.release q.budget x.reservation }) (before ++ behind)
  unfolding IsCharged
  dropped-IsBalanced q before x behind h =
      let (front, others) = All-split IsCharged before (x ∷ behind) h.held_charged in
      let charged : sem.permits x.reservation ≡ packet_charge x.intent.packet = others.0 in
      record {
        waiting_charged = h.waiting_charged;
        held_charged = All-append IsCharged before behind front others.1;
        balance = omega (
          arith,
          h.balance,
          charged,
          charges-append before (x ∷ behind),
          charges-append before behind,
          sem.available-release q.budget x.reservation,
        );
      }

  taken-IsBalanced :
      (q : OutputQueue S C) (held : List (QueuedIntent N R)) (queued : QueuedIntent N R) (after : C)
      → chan.try_recv q.send ≡ some (queued, after)
      → IsBalanced q held
      → IsBalanced (record q { send = after }) (queued ∷ held)
  taken-IsBalanced q held queued after e h =
      let was_waiting = chan.received q.send after queued e in
      let (first, others) = subst (All IsCharged) was_waiting h.waiting_charged in
      record {
        waiting_charged = others;
        held_charged = (first, h.held_charged);
        balance = let before = ap charges was_waiting in omega (arith, h.balance);
      }

  -- Counting and invalidating leave the channel and the semaphore alone.
  same-IsBalanced :
      (p q : OutputQueue S C) (held : List (QueuedIntent N R))
      → p.send ≡ q.send
      → p.budget ≡ q.budget
      → p.budget_bytes ≡ q.budget_bytes
      → IsBalanced p held
      → IsBalanced q held
  same-IsBalanced p q held same_send same_budget same_bytes h = record {
    waiting_charged = subst (λ c. All IsCharged (chan.waiting c)) same_send h.waiting_charged;
    held_charged = h.held_charged;
    balance =
        let available = ap sem.available same_budget in
        let waiting = ap (λ c. charges (chan.waiting c)) same_send in omega (arith, h.balance);
  }

  Reached-IsBalanced :
      (q : OutputQueue S C) (held : List (QueuedIntent N R)) → Reached q held → IsBalanced q held
  unfolding queue_new submit invalidate
  Reached-IsBalanced _ _ (started capacity budget_bytes totals) =
      let empty = chan.waiting-new capacity in
      record {
        waiting_charged = subst (All IsCharged) (sym empty) tt;
        held_charged = tt;
        balance = rw empty (omega (arith, sem.available-new budget_bytes));
      }
  Reached-IsBalanced _ _ (submitted q held intent now_ms r) =
      submit_reserved-IsBalanced q held intent now_ms
        (reserve sem chan q (packet_charge intent.packet)) refl (Reached-IsBalanced q held r)
  Reached-IsBalanced _ _ (taken q held queued after e r) =
      taken-IsBalanced q held queued after e (Reached-IsBalanced q held r)
  Reached-IsBalanced _ _ (dropped q before x behind r) =
      dropped-IsBalanced q before x behind (Reached-IsBalanced q (before ++ (x ∷ behind)) r)
  Reached-IsBalanced _ _ (counted_drop q held expired timed_out r) =
      same-IsBalanced q _ held refl refl refl (Reached-IsBalanced q held r)
  Reached-IsBalanced _ _ (counted_miss q held r) =
      same-IsBalanced q _ held refl refl refl (Reached-IsBalanced q held r)
  Reached-IsBalanced _ _ (counted_expiry q held count r) =
      same-IsBalanced q _ held refl refl refl (Reached-IsBalanced q held r)
  Reached-IsBalanced _ _ (invalidated q held r) =
      same-IsBalanced q _ held refl refl refl (Reached-IsBalanced q held r)

  -- In any order of submitting, receiving, dropping reservations, counting losses and invalidating,
  -- the bytes in use are the charges of the packets that wait in the channel and of those that were
  -- received and whose reservations are not dropped yet, and no more than the budget: no intent is
  -- admitted without its charge, and no charge is lost.
  pub used_bytes_lem :
      (q : OutputQueue S C) (held : List (QueuedIntent N R))
      → Reached q held
      → (used_bytes sem chan q ≡ charges (chan.waiting q.send) + charges held)
        × (charges (chan.waiting q.send) + charges held ≤ q.budget_bytes)
  used_bytes_lem q held r =
      let balance = (Reached-IsBalanced q held r).balance in (omega arith, omega arith)
