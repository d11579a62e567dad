-- ===== src/Examples/Queues.antt =====
-- The output queue and the scheduler behind it.
use babel_rs.Base.{
  ℕ, ◌+◌, ◌-◌, ◌≤◌, ◌<◌, ◌≡◌, ◌≢◌, refl, Option, All, some, none, List, [], ◌∷◌, ◌++◌, arith,
  length, min, max, leb, ltb, if◌then◌else◌,
}
use babel_rs.Base.Results.{ok}
use babel_rs.Base.Words.{saturating_add64}
use babel_rs.Model.{IpAddr, v4}
use babel_rs.Wire.{OutboundPacket, ack}
use babel_rs.Wire.Frame.{put_tlv}
use babel_rs.Wire.Encode.{encode_outbound_tlv}
use babel_rs.Wire.Packetizer.{
  encode_packets, pack_loop, split_group, place_group, break_before, close_body, finish_packet,
  encode_group, encode_within,
}
use babel_rs.Wire.Packetizer.Sizes.{IsDatagram}
use babel_rs.Router.Scheduler.{
  OutboundIntent, QueuedIntent, PendingBatch, OutputScheduler, scheduler_new, with_pacing, enqueue,
  put_batch, pop_due, pop_from, packetize, packetize_due, next_wake_ms, pending_wake,
}
use babel_rs.Router.Scheduler.Jitter.{bounded}
use babel_rs.Router.Scheduler.Ready.{ReadyDatagram, ready_wake, take_first}
use babel_rs.Router.Scheduler.Wakes.{work_times, pop_due-wakes_later}
use babel_rs.Router.Scheduler.Times.{IsEarliest}
use babel_rs.Router.Scheduler.Batches.{batch_for, tlvs_of, enqueue_lem}
use babel_rs.Router.Scheduler.Reached
use babel_rs.Router.Scheduler.Reached.{pop_due-IsDatagram}
use babel_rs.Router.Queue.{
  Semaphore, Channel, OutputCounters, OutputQueue, queue_new, submit, used_bytes,
}
use babel_rs.Router.Queue.Budget
use babel_rs.Router.Queue.Budget.{used_bytes_lem, charges}
use babel_rs.Examples.Prefixes.{Prefix, prefix_net}

abbrev one_host : IpAddr
one_host = v4 (10 ∷ 0 ∷ 0 ∷ 1 ∷ [])

abbrev other_host : IpAddr
other_host = v4 (10 ∷ 0 ∷ 0 ∷ 2 ∷ [])

abbrev ack_intent : ℕ → OutboundIntent Prefix
ack_intent nonce = record {
  destination = one_host;
  packet = record { tlvs = ack nonce ∷ [] };
  timing = record { deadline_ms = 1100; max_jitter_ms = 0 };
}

-- An intent with a reservation of 1024 permits.
abbrev queued_ack : ℕ → QueuedIntent Prefix ℕ
queued_ack nonce = record {
  generation = 0;
  intent = ack_intent nonce;
  expires_ms = 2100;
  reservation = 1024;
}

abbrev waiting_batch : PendingBatch Prefix ℕ
waiting_batch = record {
  destination = one_host;
  tlvs = ack 1 ∷ [];
  release_ms = 1040;
  deadline_ms = 1100;
  expires_ms = 2100;
  reservations = 1024 ∷ [];
}

abbrev waiting : OutputScheduler Prefix ℕ
waiting = record (with_pacing 1 2) { pending = waiting_batch ∷ [] }

nothing_due : pop_due waiting 1000 1280 ≡ (ok none, waiting)
unfolding pop_due packetize_due packetize pop_from
nothing_due = refl

wakes_at : next_wake_ms waiting ≡ some 1040
unfolding next_wake_ms ready_wake pending_wake
wakes_at = refl

pop_due-wakes_later_example :
    All (λ t. 1000 < t) (work_times waiting)
    × IsEarliest (work_times waiting) (next_wake_ms waiting)
pop_due-wakes_later_example = pop_due-wakes_later waiting waiting 1000 1280 nothing_due

enqueue_lem_example :
    ((b : PendingBatch Prefix ℕ) × (batch_for one_host (enqueue waiting (queued_ack 2) 1000).pending
        ≡ some b)
      × (b.tlvs ≡ tlvs_of (batch_for one_host waiting.pending) ++ (ack 2 ∷ []))
      × (b.release_ms ≤ max 1000 1095)
      × (b.deadline_ms ≤ 1100)
      × (b.expires_ms ≤ 2100))
    × ((d : IpAddr)
        → one_host ≢ d
        → batch_for d (enqueue waiting (queued_ack 2) 1000).pending ≡ batch_for d waiting.pending)
enqueue_lem_example = enqueue_lem waiting (queued_ack 2) 1000 (omega arith)

abbrev fresh : OutputScheduler Prefix ℕ
fresh = scheduler_new 1

abbrev loaded : OutputScheduler Prefix ℕ
loaded = enqueue fresh (queued_ack 1) 1000

abbrev ack_datagram : ReadyDatagram ℕ
ack_datagram = record {
  destination = one_host;
  bytes = 42 ∷ 2 ∷ 0 ∷ 4 ∷ 3 ∷ 2 ∷ 0 ∷ 1 ∷ [];
  deadline_ms = 1100;
  expires_ms = 2100;
  reservations = 1024 ∷ [];
}

ack_given : (pop_due loaded 1000 12).0 ≡ ok (some ack_datagram)
unfolding enqueue put_batch bounded pop_due packetize_due packetize pop_from take_first
    encode_packets pack_loop split_group place_group break_before close_body finish_packet
    encode_group encode_within encode_outbound_tlv put_tlv
ack_given = refl

pop_due-IsDatagram_example :
    IsDatagram 12 ack_datagram.bytes
    × (min loaded.next_send_ms 1100 ≤ 1000)
    × (((pop_due loaded 1000 12).1).next_send_ms ≡ saturating_add64 1000 loaded.pacing_ms)
pop_due-IsDatagram_example =
    pop_due-IsDatagram 12 loaded 1000 12 ack_datagram
      (Reached.enqueued fresh (queued_ack 1) 1000 (Reached.started 1)) (omega arith) ack_given

-- Permits by their number, and a channel by its capacity and what waits in it.
abbrev take_permits : ℕ → ℕ → Option (ℕ × ℕ)
take_permits s n = if leb n s then some (n, s - n) else none

permits_taken : (s after n r : ℕ) → take_permits s n ≡ some (r, after) → (r ≡ n) × (after + n ≡ s)
permits_taken s after n r h = ground arith

abbrev permits : Semaphore ℕ ℕ
permits = record {
  semaphore_new = λ n. n;
  available = λ s. s;
  permits = λ r. r;
  try_acquire = take_permits;
  release = λ s r. s + r;
  available-new = λ n. refl;
  acquired = permits_taken;
  available-release = λ s r. refl;
}

abbrev Line : Type 0
Line = ℕ × List (QueuedIntent Prefix ℕ)

abbrev send_line : Line → QueuedIntent Prefix ℕ → Option Line
send_line line a =
    if ltb (length (line.1)) (line.0) then some (line.0, line.1 ++ (a ∷ [])) else none

abbrev receive_from : ℕ → List (QueuedIntent Prefix ℕ) → Option (QueuedIntent Prefix ℕ × Line)
receive_from capacity [] = none
receive_from capacity (a ∷ rest) = some (a, (capacity, rest))

line_sent :
    (c after : Line) (a : QueuedIntent Prefix ℕ)
    → send_line c a ≡ some after
    → after.1 ≡ c.1 ++ (a ∷ [])
line_sent c after a h = ground arith

line_received :
    (capacity : ℕ) (xs : List (QueuedIntent Prefix ℕ)) (after : Line) (a : QueuedIntent Prefix ℕ)
    → receive_from capacity xs ≡ some (a, after)
    → xs ≡ a ∷ after.1
line_received capacity [] after a h = cc
line_received capacity (x ∷ xs) after a h = ground arith

abbrev line : Channel Line (QueuedIntent Prefix ℕ)
line = record {
  channel_new = λ n. (n, []);
  waiting = λ c. c.1;
  try_send = send_line;
  try_recv = λ c. receive_from (c.0) (c.1);
  waiting-new = λ n. refl;
  sent = line_sent;
  received = λ c after a. line_received (c.0) (c.1) after a;
}

abbrev no_totals : OutputCounters
no_totals = record { dropped = 0; missed_deadlines = 0 }

abbrev empty_queue : OutputQueue ℕ Line
empty_queue = queue_new permits line 1 4096 no_totals

abbrev one_waiting : OutputQueue ℕ Line
one_waiting = submit permits line empty_queue (ack_intent 1) 1024 1000

one_used : used_bytes permits line one_waiting ≡ 1024
unfolding submit queue_new
one_used = refl

-- The channel is full: the reservation of the second intent comes back.
one_rejected :
    (used_bytes permits line (submit permits line one_waiting (ack_intent 2) 1024 1000) ≡ 1024)
    × ((submit permits line one_waiting (ack_intent 2) 1024 1000).counters.rejected_tlvs ≡ 1)
unfolding submit queue_new
one_rejected = (refl, refl)

-- Every packet is charged 1024 bytes here.
abbrev kilobyte : OutboundPacket Prefix → ℕ
kilobyte packet = 1024

used_bytes_lem_example :
    (used_bytes permits line one_waiting
      ≡ charges permits line kilobyte (line.waiting one_waiting.send)
        + charges permits line kilobyte [])
    × (charges permits line kilobyte (line.waiting one_waiting.send)
          + charges permits line kilobyte []
        ≤ one_waiting.budget_bytes)
used_bytes_lem_example =
    used_bytes_lem permits line kilobyte one_waiting []
      (Budget.submitted empty_queue [] (ack_intent 1) 1000 (Budget.started 1 4096 no_totals))
