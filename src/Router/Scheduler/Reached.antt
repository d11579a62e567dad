-- ===== src/Router/Scheduler/Reached.antt =====
-- What the output scheduler of crates/babel-router/src/output.rs gives out, over any calls of it.
use babel_rs.Base.{
  ℕ, ◌≤◌, ◌≡◌, refl, sym, subst, ap, ◌∙◌, min, some, List, [], ◌∷◌, ◌++◌, ltb, Bytes, arith, inl,
  inr, Bool-cases, All,
}
use babel_rs.Base.Results.{ok, Result-cases}
use babel_rs.Base.Words.{saturating_add64}
use babel_rs.Model.{IpNet}
use babel_rs.Wire.{max_packet_size}
use babel_rs.Wire.Packetizer.{encode_packets}
use babel_rs.Wire.Packetizer.Sizes.{IsDatagram, encode_packets-IsDatagram}
use babel_rs.Router.Scheduler.{
  QueuedIntent, PendingBatch, OutputScheduler, scheduler_new, enqueue, expire, ready_all, is_due,
  packetize, packetize_due, pop_from, pop_ready, pop_due,
}
use babel_rs.Router.Scheduler.Ready.{ReadyDatagram, expire_ready, send_at, goes_before, take_first}
use babel_rs.Router.Scheduler.Wakes.{
  packetize-waits, packetize-sends, packetize-fails, pop_due-ok, pop_due-err, never, some-none,
  ok_inj,
}

module _ {N R : Type 0} ⦃net : IpNet N⦄ where
  -- The states of a scheduler whose payload budgets have been at most `size`.
  pub data Reached (size : ℕ) : OutputScheduler N R → Type 0 where
    started : (seed : ℕ) → Reached size (scheduler_new seed)
    enqueued :
        (s : OutputScheduler N R) (queued : QueuedIntent N R) (now : ℕ)
        → Reached size s
        → Reached size (enqueue s queued now)
    expired : (s : OutputScheduler N R) (now : ℕ) → Reached size s → Reached size ((expire s now).1)
    popped :
        (s : OutputScheduler N R) (now budget : ℕ)
        → budget ≤ size
        → Reached size s
        → Reached size ((pop_due s now budget).1)

abbrev AllWhole : {R : Type 0} → ℕ → List (ReadyDatagram R) → Type 0
AllWhole size ds = All (λ d. IsDatagram size d.bytes) ds

IsDatagram-wider : (a b : ℕ) (bytes : Bytes) → a ≤ b → IsDatagram a bytes → IsDatagram b bytes
unfolding IsDatagram
IsDatagram-wider a b bytes h (body, e, n, le) = (body, e, n, omega arith)

module _ {R : Type 0} where
  AllWhole-append :
      (size : ℕ) (xs ys : List (ReadyDatagram R))
      → AllWhole size xs
      → AllWhole size ys
      → AllWhole size (xs ++ ys)
  AllWhole-append size [] ys hx hy = hy
  AllWhole-append size (x ∷ xs) ys hx hy = (hx.0, AllWhole-append size xs ys hx.1 hy)

  expire_ready-AllWhole :
      (size now : ℕ) (ds : List (ReadyDatagram R))
      → AllWhole size ds
      → AllWhole size (expire_ready ds now)
  unfolding expire_ready
  expire_ready-AllWhole size now [] h = tt
  expire_ready-AllWhole size now (d ∷ ds) h = elim (Bool-cases (ltb now d.expires_ms)) [
    | inl e ↦ rw e (h.0, expire_ready-AllWhole size now ds h.1)
    | inr e ↦ rw e (expire_ready-AllWhole size now ds h.1)
  ]

  take_first-AllWhole :
      (size n : ℕ) (d : ReadyDatagram R) (rest : List (ReadyDatagram R))
      → AllWhole size (d ∷ rest)
      → IsDatagram size ((take_first n d rest).0).bytes × AllWhole size ((take_first n d rest).1)
  unfolding take_first
  take_first-AllWhole size n d [] h = (h.0, tt)
  take_first-AllWhole size n d (e ∷ rest) h =
      let (best, others) = take_first-AllWhole size n e rest h.1 in
      elim (Bool-cases (goes_before n ((take_first n e rest).0) d)) [
        | inl b ↦ rw b (best, (h.0, others))
        | inr b ↦ rw b (h.0, h.1)
      ]

some_inj : {A : Type 0} {a b : A} → some a ≡ some b → a ≡ b
some_inj h = cc

module _ {N R : Type 0} where
  ready_all-AllWhole :
      (size a : ℕ) (b : PendingBatch N R) (packets : List Bytes)
      → a ≤ size
      → All (IsDatagram a) packets
      → AllWhole size (ready_all b packets)
  ready_all-AllWhole size a b [] le h = tt
  ready_all-AllWhole size a b (p ∷ ps) le h =
      (IsDatagram-wider a size p le h.0, ready_all-AllWhole size a b ps le h.1)

  pop_from-AllWhole :
      (size : ℕ) (ready : List (ReadyDatagram R)) (s : OutputScheduler N R) (now : ℕ)
      → AllWhole size ready
      → AllWhole size s.ready
      → AllWhole size ((pop_from ready s now).1).ready
  unfolding pop_from
  pop_from-AllWhole size [] s now h hs = hs
  pop_from-AllWhole size (d ∷ rest) s now h hs =
      elim (Bool-cases (ltb now (send_at s.next_send_ms ((take_first s.next_send_ms d rest).0)))) [
        | inl e ↦ rw e hs
        | inr e ↦ rw e ((take_first-AllWhole size s.next_send_ms d rest h).1)
      ]

  -- A datagram that is given out is one of those that are ready, and its time has come.
  pop_from-given :
      (size : ℕ) (ready : List (ReadyDatagram R)) (s : OutputScheduler N R) (now : ℕ)
      (d : ReadyDatagram R)
      → AllWhole size ready
      → (pop_from ready s now).0 ≡ some d
      → IsDatagram size d.bytes
        × (send_at s.next_send_ms d ≤ now)
        × (((pop_from ready s now).1).next_send_ms ≡ saturating_add64 now s.pacing_ms)
  unfolding pop_from
  pop_from-given size [] s now d h e = absurd (some-none d (sym e))
  pop_from-given size (x ∷ rest) s now d h e =
      let first = (take_first s.next_send_ms x rest).0 in
      elim (Bool-cases (ltb now (send_at s.next_send_ms first))) [
        | inl later ↦ absurd (some-none d (sym (rw later at e)))
        | inr due ↦
            let same : first ≡ d = some_inj (rw due at e) in
            rw due (
              subst (λ (x : ReadyDatagram R). IsDatagram size x.bytes) same
                  ((take_first-AllWhole size s.next_send_ms x rest h).0),
              subst (λ (x : ReadyDatagram R). send_at s.next_send_ms x ≤ now) same (ground arith),
              refl,
            )
      ]

module _ {N R : Type 0} ⦃net : IpNet N⦄ where
  packetize-AllWhole :
      (size : ℕ) (bs : List (PendingBatch N R)) (ready : List (ReadyDatagram R)) (now budget : ℕ)
      → budget ≤ size
      → AllWhole size ready
      → AllWhole size (((packetize bs ready now budget).1).1)
  unfolding packetize
  packetize-AllWhole size [] ready now budget le h = h
  packetize-AllWhole size (b ∷ bs) ready now budget le h = elim (Bool-cases (is_due b now)) [
    | inr w ↦
        subst (λ r. AllWhole size ((r.1).1)) (sym (packetize-waits b bs ready now budget w))
          (packetize-AllWhole size bs ready now budget le h)
    | inl d ↦ elim (Result-cases (encode_packets (record { tlvs = b.tlvs }) budget)) [
      | inr (e, bad) ↦
          subst (λ r. AllWhole size ((r.1).1)) (sym (packetize-fails b bs ready now budget e d bad))
            h
      | inl (packets, good) ↦
          let whole = encode_packets-IsDatagram (record { tlvs = b.tlvs }) budget packets good in
          let more =
            AllWhole-append size ready (ready_all b packets) h (
              ready_all-AllWhole size (min budget max_packet_size) b packets (omega arith) whole) in
          subst (λ r. AllWhole size ((r.1).1))
            (sym (packetize-sends b bs ready now budget packets d good))
            (packetize-AllWhole size bs (ready ++ ready_all b packets) now budget le more)
    ]
  ]

  packed_ready :
      (size : ℕ) (s : OutputScheduler N R) (now budget : ℕ)
      → budget ≤ size
      → AllWhole size s.ready
      → AllWhole size ((packetize_due s now budget).1).ready
  unfolding packetize_due
  packed_ready size s now budget le h = packetize-AllWhole size s.pending s.ready now budget le h

  packed_times :
      (s : OutputScheduler N R) (now budget : ℕ)
      → (((packetize_due s now budget).1).next_send_ms ≡ s.next_send_ms)
        × (((packetize_due s now budget).1).pacing_ms ≡ s.pacing_ms)
  unfolding packetize_due
  packed_times s now budget = (refl, refl)

  pop_due-AllWhole :
      (size : ℕ) (s : OutputScheduler N R) (now budget : ℕ)
      → budget ≤ size
      → AllWhole size s.ready
      → AllWhole size ((pop_due s now budget).1).ready
  pop_due-AllWhole size s now budget le h =
      let packed = (packetize_due s now budget).1 in
      let whole = packed_ready size s now budget le h in
      elim (Result-cases ((packetize_due s now budget).0)) [
        | inr (e, bad) ↦
            subst (λ r. AllWhole size ((r.1).ready)) (sym (pop_due-err s now budget e bad)) whole
        | inl (u, good) ↦
            subst (λ r. AllWhole size ((r.1).ready)) (sym (pop_due-ok s now budget u good))
              (pop_from-AllWhole size packed.ready packed now whole whole)
      ]

  Reached-AllWhole : (size : ℕ) (s : OutputScheduler N R) → Reached size s → AllWhole size s.ready
  unfolding enqueue expire
  Reached-AllWhole size _ (started seed) = tt
  Reached-AllWhole size _ (enqueued s queued now r) = Reached-AllWhole size s r
  Reached-AllWhole size _ (expired s now r) =
      expire_ready-AllWhole size now s.ready (Reached-AllWhole size s r)
  Reached-AllWhole size _ (popped s now budget le r) =
      pop_due-AllWhole size s now budget le (Reached-AllWhole size s r)

  -- Whatever was enqueued, expired and given out before, a datagram that is given out is a whole
  -- packet no longer than the largest payload budget of the calls; the pacing time or its deadline
  -- has come; and the next datagram is paced from now.
  pub pop_due-IsDatagram :
      (size : ℕ) (s : OutputScheduler N R) (now budget : ℕ) (d : ReadyDatagram R)
      → Reached size s
      → budget ≤ size
      → (pop_due s now budget).0 ≡ ok (some d)
      → IsDatagram size d.bytes
        × (min s.next_send_ms d.deadline_ms ≤ now)
        × (((pop_due s now budget).1).next_send_ms ≡ saturating_add64 now s.pacing_ms)
  pop_due-IsDatagram size s now budget d r le h =
      let packed = (packetize_due s now budget).1 in
      let whole = packed_ready size s now budget le (Reached-AllWhole size s r) in
      let (times, pace) = packed_times s now budget in
      elim (Result-cases ((packetize_due s now budget).0)) [
        | inr (e, bad) ↦
            absurd (never e (some d) (ap (λ r. r.0) (sym (pop_due-err s now budget e bad)) ∙ h))
        | inl (u, good) ↦
            let step = pop_due-ok s now budget u good in
            let given : (pop_ready packed now).0 ≡ some d = ok_inj (ap (λ r. r.0) (sym step) ∙ h) in
            let (fits, due, next) = pop_from-given size packed.ready packed now d whole given in
            (
              fits,
              subst (λ (t : ℕ). min t d.deadline_ms ≤ now) times due,
              ap (λ r. (r.1).next_send_ms) step ∙ next ∙ ap (saturating_add64 now) pace,
            )
      ]
