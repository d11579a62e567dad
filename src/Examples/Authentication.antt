-- ===== src/Examples/Authentication.antt =====
-- Sessions that sign and receive.
use babel_rs.Base.{
  ℕ, zero, suc, ap, ◌+◌, ◌≡◌, ◌≢◌, refl, true, false, List, [], ◌∷◌, ◌++◌, none, some, arith, Bytes,
  length, take, drop, bytes_beq, bytes_beq_iff,
}
use mathlib.Core.List.{Memᴰ}
use babel_rs.Base.Map.{Distinct, lookup}
use babel_rs.Base.Results.{ok, err}
use babel_rs.Model.{v4}
use babel_rs.Mac.Keys.{
  MacKey, blake2s128, Crypto, SocketAddr, socket_eq, DatagramEndpoints, MacError, digest_len,
  authenticated_bytes, overhead,
}
use babel_rs.Mac.Frame.{Element, body_end, tlvs, tlvs_loop}
use babel_rs.Mac.Session.{
  MacSession, Peer, sign, sign_framed, check_unsigned, fresh_counter, trailer, mac_type,
}
use babel_rs.Mac.Receive.{receive}
use babel_rs.Mac.Receive.Verified.{receive_accepted_verified}
use babel_rs.Mac.Receive.Replay.{receive_replay}
use babel_rs.Mac.Receive.Others.{Arrival, receive_all}
use babel_rs.Mac.Receive.Capacity.{IsBounded, receive-IsBounded}
use babel_rs.Mac.Signed.{length-sign}
use babel_rs.Mac.Signed.Delivery.{receive-sign}

-- A stand-in for the cryptography, with digests of the documented lengths.
abbrev repeated : ℕ → Bytes
repeated zero = []
repeated (suc n) = 7 ∷ repeated n

length-repeated : (n : ℕ) → length (repeated n) ≡ n
length-repeated zero = refl
length-repeated (suc n) = ap suc (length-repeated n)

instance abbrev toy_crypto : Crypto
toy_crypto = record {
  digest = λ k bytes. repeated (digest_len k.algorithm);
  ct_eq = bytes_beq;
  length-digest = λ k bytes. length-repeated (digest_len k.algorithm);
  ct_eq_iff = bytes_beq_iff;
}

abbrev key : MacKey
key = record { algorithm = blake2s128; bytes = 1 ∷ 2 ∷ [] }

abbrev nines : Bytes
nines = 9 ∷ 9 ∷ 9 ∷ 9 ∷ 9 ∷ 9 ∷ 9 ∷ 9 ∷ 9 ∷ 9 ∷ 9 ∷ 9 ∷ 9 ∷ 9 ∷ 9 ∷ 9 ∷ []

abbrev sender : MacSession
sender = record {
  config = record { keys = key ∷ []; accept_unverified = false };
  index = nines;
  counter = 5;
  peers = [];
  max_peers = 4;
  last_challenge = none;
}

abbrev address : SocketAddr
address = record { ip = v4 (10 ∷ 0 ∷ 0 ∷ 1 ∷ []); port = 6696; flowinfo = 0; scope_id = 0 }

abbrev endpoints : DatagramEndpoints
endpoints = record {
  source = address;
  destination = record { ip = v4 (10 ∷ 0 ∷ 0 ∷ 2 ∷ []); port = 6696; flowinfo = 0; scope_id = 0 };
}

-- An acknowledgment.
abbrev plain : Bytes
plain = 42 ∷ 2 ∷ 0 ∷ 4 ∷ 3 ∷ 2 ∷ 0 ∷ 1 ∷ []

abbrev spent : MacSession
spent = record sender { counter = 6 }

abbrev signed : Bytes
signed =
    42 ∷ 2 ∷ 0 ∷ 26 ∷ 3 ∷ 2 ∷ 0 ∷ 1 ∷ 17 ∷ 20 ∷ 0 ∷ 0 ∷ 0 ∷ 5 ∷ (nines ++ (16 ∷ 16 ∷ repeated 16))

sign_plain : sign sender plain endpoints (err MacError.entropy) ≡ (ok signed, spent)
unfolding sign sign_framed check_unsigned fresh_counter trailer body_end tlvs tlvs_loop
    authenticated_bytes
sign_plain = refl

abbrev known : Peer
known = record {
  index = some nines;
  unicast = 4;
  multicast = 0;
  nonce = none;
  last_reply = none;
  expires = 100000;
}

abbrev receiver : MacSession
receiver = record sender { index = repeated 16; peers = (address, known) ∷ [] }

receiver-Distinct : Distinct receiver.peers
unfolding lookup
receiver-Distinct = (refl, tt)

length-sign_example : length signed ≡ length plain + overhead sender.config
length-sign_example =
    length-sign sender spent plain signed endpoints (err MacError.entropy) refl (omega arith) tt
      sign_plain

receive-sign_example :
    (receive receiver signed endpoints 1000 (err MacError.entropy)).0.accepted ≡ true
unfolding lookup
receive-sign_example =
    receive-sign sender spent plain signed endpoints (err MacError.entropy) receiver key known 1000
      (err MacError.entropy) refl (omega arith) tt sign_plain refl (Memᴰ.head refl) (Memᴰ.head refl)
      receiver-Distinct refl (omega arith) refl (omega arith)

receive_accepted_verified_example :
    (end : ℕ) × (body_end signed ≡ ok end)
    × (elements : List Element) × (tlvs (drop end signed) ≡ ok elements)
    × (bytes : Bytes) × (authenticated_bytes endpoints (take end signed) ≡ ok bytes)
    × (k : MacKey) × Memᴰ k receiver.config.keys
    × Memᴰ (mac_type, toy_crypto.digest k bytes) elements
receive_accepted_verified_example =
    receive_accepted_verified receiver signed endpoints 1000 (err MacError.entropy) refl
      receive-sign_example

-- Another host sends the same octets in between.
abbrev stranger : Arrival
stranger = record {
  packet = signed;
  endpoints = record endpoints { source = record endpoints.source { port = 7000 } };
  now = 1500;
  random = err MacError.entropy;
}

stranger_differs : stranger.endpoints.source ≢ endpoints.source
stranger_differs h = let ports = ap (λ (a : SocketAddr). a.port) h in omega arith

receive_replay_example :
    (receive
      (receive_all
        (receive receiver signed endpoints 1000 (err MacError.entropy)).1
        (stranger ∷ []))
      signed
      endpoints
      2000
      (ok nines)).0.accepted
    ≡ false
receive_replay_example =
    receive_replay receiver signed endpoints 1000 2000 (err MacError.entropy) (ok nines)
      (stranger ∷ []) refl receiver-Distinct (omega arith) (stranger_differs, tt)
      receive-sign_example

receive-IsBounded_example :
    IsBounded (receive receiver signed endpoints 1000 (err MacError.entropy)).1
receive-IsBounded_example =
    receive-IsBounded receiver signed endpoints 1000 (err MacError.entropy)
      (record { distinct = receiver-Distinct; within = omega arith })
