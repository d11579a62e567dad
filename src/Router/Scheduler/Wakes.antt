-- ===== src/Router/Scheduler/Wakes.antt =====
-- When the output scheduler of crates/babel-router/src/output.rs sends, and when it waits.
use babel_rs.Base.{
  ℕ, suc, min, ◌≤◌, ◌<◌, ◌≡◌, refl, sym, subst, ap, ◌∙◌, true, false, Option, none, some, List, [],
  ◌∷◌, ◌++◌, ltb, Bytes, arith, inl, inr, Bool-cases, All, All-append,
}
use babel_rs.Base.Results.{Result, ok, err, Result-cases}
use babel_rs.Model.{IpNet}
use babel_rs.Wire.{WireError}
use babel_rs.Wire.Packetizer.{encode_packets}
use babel_rs.Router.Scheduler.Times.{
  IsEarliest, no_time, earlier-IsEarliest, earlier-IsEarliest_both, append_nil,
}
use babel_rs.Router.Scheduler.{
  PendingBatch, OutputScheduler, pending_wake, next_wake_ms, ready_all, is_due, packetize,
  packetize_due, pop_from, pop_ready, pop_due,
}
use babel_rs.Router.Scheduler.Ready.{
  ReadyDatagram, earlier, send_at, goes_before, ready_wake, take_first,
}

module _ {R : Type 0} where
  -- No datagram is sent before the one that is taken first.
  take_first_least :
      (n t : ℕ) (d : ReadyDatagram R) (rest : List (ReadyDatagram R))
      → t ≤ send_at n ((take_first n d rest).0)
      → All (λ e. t ≤ send_at n e) (d ∷ rest)
  unfolding take_first
  take_first_least n t d [] h = (h, tt)
  take_first_least n t d (e ∷ rest) h =
      elim (Bool-cases (goes_before n ((take_first n e rest).0) d)) [
        | inl b ↦
            let low : t ≤ send_at n ((take_first n e rest).0) = rw b at h in
            (ground arith, take_first_least n t e rest low)
        | inr b ↦
            let low : t ≤ send_at n d = rw b at h in
            (low, take_first_least n t e rest (ground arith))
      ]

  -- When the datagrams that are ready are sent.
  abbrev ready_times : ℕ → List (ReadyDatagram R) → List ℕ
  ready_times next_send_ms [] = []
  ready_times next_send_ms (d ∷ ds) = min next_send_ms d.deadline_ms ∷ ready_times next_send_ms ds

  ready_wake-IsEarliest :
      (n : ℕ) (ds : List (ReadyDatagram R)) → IsEarliest (ready_times n ds) (ready_wake n ds)
  unfolding ready_wake
  ready_wake-IsEarliest n [] = no_time
  ready_wake-IsEarliest n (d ∷ ds) =
      earlier-IsEarliest (ready_wake n ds) _ _ (ready_wake-IsEarliest n ds)

  ready_times-All :
      (n now : ℕ) (ds : List (ReadyDatagram R))
      → All (λ e. now < send_at n e) ds
      → All (λ t. now < t) (ready_times n ds)
  ready_times-All n now [] h = tt
  ready_times-All n now (d ∷ ds) h = (h.0, ready_times-All n now ds h.1)

module _ {N R : Type 0} where
  -- When the batches that wait are packetized.
  abbrev pending_times : List (PendingBatch N R) → List ℕ
  pending_times [] = []
  pending_times (b ∷ bs) = min b.release_ms b.deadline_ms ∷ pending_times bs

  -- The times of all the work of a scheduler: the release or the deadline of a batch that waits,
  -- and the next sending or the deadline of a datagram that is ready.
  abbrev pub work_times : OutputScheduler N R → List ℕ
  work_times s = pending_times s.pending ++ ready_times s.next_send_ms s.ready

  pending_wake-IsEarliest :
      (bs : List (PendingBatch N R)) → IsEarliest (pending_times bs) (pending_wake bs)
  unfolding pending_wake
  pending_wake-IsEarliest [] = no_time
  pending_wake-IsEarliest (b ∷ bs) =
      earlier-IsEarliest (pending_wake bs) _ _ (pending_wake-IsEarliest bs)

  pending_times-All :
      (now : ℕ) (bs : List (PendingBatch N R))
      → All (λ b. is_due b now ≡ false) bs
      → All (λ t. now < t) (pending_times bs)
  pending_times-All now [] h = tt
  pending_times-All now (b ∷ bs) h = (ground (arith, h.0), pending_times-All now bs h.1)

  next_wake_ms-IsEarliest : (s : OutputScheduler N R) → IsEarliest (work_times s) (next_wake_ms s)
  unfolding next_wake_ms
  next_wake_ms-IsEarliest s =
      by_ready (ready_wake s.next_send_ms s.ready) (ready_times s.next_send_ms s.ready)
        (ready_wake-IsEarliest s.next_send_ms s.ready)
    where
      by_ready :
          (o : Option ℕ) (us : List ℕ)
          → IsEarliest us o
          → IsEarliest (pending_times s.pending ++ us) (elim o [
            | none ↦ pending_wake s.pending
            | some t ↦ earlier (pending_wake s.pending) t
          ])
      by_ready none _ no_time =
          subst (λ ts. IsEarliest ts (pending_wake s.pending))
            (sym (append_nil (pending_times s.pending))) (pending_wake-IsEarliest s.pending)
      by_ready (some t) us h =
          earlier-IsEarliest_both (pending_wake s.pending) t _ us
            (pending_wake-IsEarliest s.pending) h

pub never : {A : Type 0} (e : WireError) (a : A) → ◌≡◌ {A = Result WireError A} (err e) (ok a) → ⊥
never e a h = cc

pub some-none : {A : Type 0} (a : A) → some a ≡ none → ⊥
some-none a h = cc

pub ok_inj : {A : Type 0} {a b : A} → ◌≡◌ {A = Result WireError A} (ok a) (ok b) → a ≡ b
ok_inj h = cc

module _ {N R : Type 0} ⦃net : IpNet N⦄ where
  -- A batch that is not due stays; one that is due becomes datagrams, or ends the loop.
  pub packetize-waits :
      (b : PendingBatch N R) (bs : List (PendingBatch N R)) (ready : List (ReadyDatagram R))
      (now budget : ℕ)
      → is_due b now ≡ false
      → packetize (b ∷ bs) ready now budget ≡ (
        (packetize bs ready now budget).0,
        (b ∷ ((packetize bs ready now budget).1).0, ((packetize bs ready now budget).1).1),
      )
  unfolding packetize
  packetize-waits b bs ready now budget w = rw (packetize, w) refl

  pub packetize-sends :
      (b : PendingBatch N R) (bs : List (PendingBatch N R)) (ready : List (ReadyDatagram R))
      (now budget : ℕ) (packets : List Bytes)
      → is_due b now ≡ true
      → encode_packets (record { tlvs = b.tlvs }) budget ≡ ok packets
      → packetize (b ∷ bs) ready now budget ≡ packetize bs (ready ++ ready_all b packets) now budget
  unfolding packetize
  packetize-sends b bs ready now budget packets d e = rw (packetize, d, e) refl

  pub packetize-fails :
      (b : PendingBatch N R) (bs : List (PendingBatch N R)) (ready : List (ReadyDatagram R))
      (now budget : ℕ) (x : WireError)
      → is_due b now ≡ true
      → encode_packets (record { tlvs = b.tlvs }) budget ≡ err x
      → packetize (b ∷ bs) ready now budget ≡ (err x, (bs, ready))
  unfolding packetize
  packetize-fails b bs ready now budget x d e = rw (packetize, d, e) refl

  -- Without an error no batch that is due is left.
  packetize-All :
      (bs : List (PendingBatch N R)) (ready : List (ReadyDatagram R)) (now budget : ℕ)
      (u : Unit {0})
      → (packetize bs ready now budget).0 ≡ ok u
      → All (λ b. is_due b now ≡ false) (((packetize bs ready now budget).1).0)
  unfolding packetize
  packetize-All [] ready now budget u h = tt
  packetize-All (b ∷ bs) ready now budget u h = elim (Bool-cases (is_due b now)) [
    | inr w ↦
        let step = packetize-waits b bs ready now budget w in
        subst (λ r. All (λ b. is_due b now ≡ false) ((r.1).0)) (sym step)
          (w, packetize-All bs ready now budget u (ap (λ r. r.0) (sym step) ∙ h))
    | inl d ↦ elim (Result-cases (encode_packets (record { tlvs = b.tlvs }) budget)) [
      | inr (e, bad) ↦
          let fails = ap (λ r. r.0) (sym (packetize-fails b bs ready now budget e d bad)) ∙ h in
          absurd (never e u fails)
      | inl (packets, good) ↦
          let step = packetize-sends b bs ready now budget packets d good in
          let more = ready ++ ready_all b packets in
          subst (λ r. All (λ b. is_due b now ≡ false) ((r.1).0)) (sym step)
            (packetize-All bs more now budget u (ap (λ r. r.0) (sym step) ∙ h))
    ]
  ]

  -- What is not given out now is sent later.
  pop_from-waits :
      (ready : List (ReadyDatagram R)) (s : OutputScheduler N R) (now : ℕ)
      → (pop_from ready s now).0 ≡ none
      → ((pop_from ready s now).1 ≡ s) × All (λ e. now < send_at s.next_send_ms e) ready
  unfolding pop_from
  pop_from-waits [] s now h = (refl, tt)
  pop_from-waits (d ∷ rest) s now h =
      elim (Bool-cases (ltb now (send_at s.next_send_ms ((take_first s.next_send_ms d rest).0)))) [
        | inl later ↦
            rw later (refl, take_first_least s.next_send_ms (suc now) d rest (ground arith))
        | inr due ↦ absurd (some-none ((take_first s.next_send_ms d rest).0) (rw due at h))
      ]

  pub pop_due-ok :
      (s : OutputScheduler N R) (now budget : ℕ) (u : Unit {0})
      → (packetize_due s now budget).0 ≡ ok u
      → pop_due s now budget ≡ (
        ok ((pop_ready ((packetize_due s now budget).1) now).0),
        (pop_ready ((packetize_due s now budget).1) now).1,
      )
  unfolding pop_due
  pop_due-ok s now budget u h = rw (pop_due, h) refl

  pub pop_due-err :
      (s : OutputScheduler N R) (now budget : ℕ) (e : WireError)
      → (packetize_due s now budget).0 ≡ err e
      → pop_due s now budget ≡ (err e, (packetize_due s now budget).1)
  unfolding pop_due
  pop_due-err s now budget e h = rw (pop_due, h) refl

  packetize_due-All :
      (s : OutputScheduler N R) (now budget : ℕ) (u : Unit {0})
      → (packetize_due s now budget).0 ≡ ok u
      → All (λ b. is_due b now ≡ false) ((packetize_due s now budget).1).pending
  unfolding packetize_due
  packetize_due-All s now budget u h = packetize-All s.pending s.ready now budget u h

  -- After a scheduler has had no datagram to give at a time, all its work is due later than that
  -- time, and its wake-up is the earliest time at which any of that work is due: none when nothing
  -- waits, and otherwise the least of the release times and deadlines of the batches that wait and
  -- of the sending times of the datagrams that are ready.
  pub pop_due-wakes_later :
      (s after : OutputScheduler N R) (now budget : ℕ)
      → pop_due s now budget ≡ (ok none, after)
      → All (λ t. now < t) (work_times after) × IsEarliest (work_times after) (next_wake_ms after)
  pop_due-wakes_later s after now budget h = (
    elim (Result-cases ((packetize_due s now budget).0)) [
      | inr (e, bad) ↦
          let wrong : ◌≡◌ {A = Result WireError (Option (ReadyDatagram R))} (err e) (ok none) =
            ap (λ r. r.0) (sym (pop_due-err s now budget e bad) ∙ h) in
          absurd (never e none wrong)
      | inl (u, good) ↦
          let packed = (packetize_due s now budget).1 in
          let step = sym (pop_due-ok s now budget u good) ∙ h in
          let nothing : (pop_ready packed now).0 ≡ none = ok_inj (ap (λ r. r.0) step) in
          let (same, later) = pop_from-waits packed.ready packed now nothing in
          let same' : packed ≡ after = sym same ∙ ap (λ r. r.1) step in
          subst (λ (x : OutputScheduler N R). All (λ t. now < t) (work_times x)) same'
            (All-append _ _ _
              (pending_times-All now packed.pending (packetize_due-All s now budget u good))
              (ready_times-All packed.next_send_ms now packed.ready later))
    ],
    next_wake_ms-IsEarliest after,
  )
