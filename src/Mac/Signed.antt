-- ===== src/Mac/Signed.antt =====
-- What `sign` makes of a packet (crates/babel-protocol/src/mac.rs).
pub mod Framing
pub mod Delivery
use babel_rs.Base.{
  ℕ, zero, suc, ◌+◌, ◌-◌, ◌*◌, ◌/◌, ◌%◌, ◌≡◌, ◌≤◌, ◌<◌, refl, Bool, true, false, not, ◌&&◌, List,
  [], ◌∷◌, ◌++◌, arith, Bytes, take, drop, inl, inr, Bool-cases, ltb, leb, ◌==◌, length,
  length-append, length-take, length-drop, if◌then◌else◌, ap, any, ◌∙◌, sym, subst, ==_iff,
  take-append, drop-append, ◌⊎◌,
}
use mathlib.Core.List.{append_assoc, append-nil}
use babel_rs.Base.Results.{Result, ok, err, ◌>>=◌, >>=-eq-ok, Result-cases, guard}
use babel_rs.Base.Words.{be_bytes16, be_bytes32, from_be16}
use babel_rs.Mac.Keys.{
  MacAlgorithm, MacError, packet, MacKey, MacConfig, Crypto, hmac_sha256, blake2s128,
  DatagramEndpoints, authenticated_bytes, keys_overhead, overhead, key_overhead, digest_len,
}
use babel_rs.Mac.Frame.{Element, body_end, tlvs, tlvs_loop, tlvs_loop_enough}
use babel_rs.Mac.Session.{
  MacSession, Random, check_unsigned, fresh_counter, with_counter, set_body_len, trailer,
  sign_framed, sign, is_authentication, mac_type, pc_type,
}

-- The index is sixteen octets, and so is what the random source gives.
abbrev pub Random16 : Random → Type 0
Random16 (ok index) = length index ≡ 16
Random16 (err e) = Unit

fresh_counter-length :
    (s t : MacSession) (random : Random)
    → length s.index ≡ 16
    → s.counter < 0x1_0000_0000
    → Random16 random
    → fresh_counter s random ≡ ok t
    → (length t.index ≡ 16) × (t.config ≡ s.config) × (t.counter < 0xffff_ffff)
unfolding fresh_counter
fresh_counter-length s t (ok index) h c r e = ground arith
fresh_counter-length s t (err x) h c r e = ground arith

-- The body that is signed, and its packet.
abbrev pub signed_body : Bytes → ℕ → Bytes → Bytes
signed_body rest counter index = rest ++ (pc_type ∷ 20 ∷ (be_bytes32 counter ++ index))

abbrev pub framed_packet : Bytes → Bytes
framed_packet body = 42 ∷ 2 ∷ (be_bytes16 (length body) ++ body)

-- What an accepted input is made of.
pub record IsUnsigned (bytes : Bytes) : Type 0 where
  pub high : ℕ
  pub low : ℕ
  pub rest : Bytes
  pub elements : List Element
  pub shape : bytes ≡ 42 ∷ 2 ∷ high ∷ low ∷ rest
  pub parsed : tlvs rest ≡ ok elements
  pub plain : any is_authentication elements ≡ false

pub take_all : (xs : Bytes) (n : ℕ) → n ≡ length xs → take n xs ≡ xs
take_all [] zero e = refl
take_all [] (suc n) e = refl
take_all (x ∷ xs) zero e = absurd (omega arith)
take_all (x ∷ xs) (suc n) e = ap (◌∷◌ x) (take_all xs n (omega arith))

guard-ok : {E : Type 0} (b : Bool) (e : E) {u : Unit {0}} → guard b e ≡ ok u → b ≡ true
guard-ok true e h = refl
guard-ok false e h = cc

body_end-shape :
    (bytes : Bytes) (end : ℕ)
    → body_end bytes ≡ ok end
    → (high : ℕ) × (low : ℕ) × (rest : Bytes) × (bytes ≡ 42 ∷ 2 ∷ high ∷ low ∷ rest)
unfolding body_end
body_end-shape (m ∷ v ∷ a ∷ b ∷ rest) end h = (a, b, rest, ground arith)
body_end-shape [] end h = absurd (ground arith)
body_end-shape (m ∷ []) end h = absurd (ground arith)
body_end-shape (m ∷ v ∷ []) end h = absurd (ground arith)
body_end-shape (m ∷ v ∷ a ∷ []) end h = absurd (ground arith)

check_unsigned-IsUnsigned :
    (bytes : Bytes) (u : Unit {0}) → check_unsigned bytes ≡ ok u → IsUnsigned bytes
unfolding check_unsigned
check_unsigned-IsUnsigned bytes u h =
    let (end, framed, h1) = >>=-eq-ok (body_end bytes) _ h in
    let (_, whole, h2) = >>=-eq-ok (guard (end == length bytes) packet) _ h1 in
    let (elements, parsed, h3) = >>=-eq-ok (tlvs (drop 4 (take end bytes))) _ h2 in
    let (high, low, rest, shape) = body_end-shape bytes end framed in
    let all : end ≡ length bytes = (==_iff end (length bytes)).0 (guard-ok _ _ whole) in
    let plain = guard-ok _ _ h3 in
    record {
      high = high;
      low = low;
      rest = rest;
      elements = elements;
      shape = shape;
      parsed = subst (λ x. tlvs (drop 4 x) ≡ ok elements) (take_all bytes end all ∙ shape) parsed;
      plain = ground arith;
    }

key_overhead_lem : (a : MacAlgorithm) → key_overhead a ≡ 2 + digest_len a
key_overhead_lem hmac_sha256 = refl
key_overhead_lem blake2s128 = refl

module _ ⦃crypto : Crypto⦄ where
  length-trailer :
      (keys : List MacKey) (bytes : Bytes) → length (trailer keys bytes) ≡ keys_overhead keys
  unfolding trailer keys_overhead
  length-trailer [] bytes = refl
  length-trailer (k ∷ ks) bytes = omega (
    arith,
    length-append (crypto.digest k bytes) (trailer ks bytes),
    crypto.length-digest k bytes,
    length-trailer ks bytes,
    key_overhead_lem k.algorithm,
  )

  -- The parts of a packet that was signed.
  pub record IsSigned (s : MacSession) (bytes : Bytes) (endpoints : DatagramEndpoints) (out : Bytes)
      (t : MacSession) : Type 0 where
    pub input : IsUnsigned bytes
    pub counter : ℕ
    pub index : Bytes
    pub covered : Bytes
    pub index_eq : t.index ≡ index
    pub counter_eq : t.counter ≡ counter + 1
    pub index_16 : length index ≡ 16
    pub counter_fits : counter < 0xffff_ffff
    pub fits : length (signed_body input.rest counter index) < 0x10000
    pub header :
        authenticated_bytes endpoints (framed_packet (signed_body input.rest counter index))
        ≡ ok covered
    pub out_eq :
        out ≡ framed_packet (signed_body input.rest counter index) ++ trailer s.config.keys covered

  sign_framed-parts :
      (keys : List MacKey) (high low : ℕ) (rest : Bytes) (counter : ℕ) (index out : Bytes)
      (endpoints : DatagramEndpoints)
      → sign_framed keys (with_counter (42 ∷ 2 ∷ high ∷ low ∷ rest) counter index) endpoints
        ≡ ok out
      → (covered : Bytes) × (length (signed_body rest counter index) < 0x10000)
        × (authenticated_bytes endpoints (framed_packet (signed_body rest counter index))
            ≡ ok covered)
        × (out ≡ framed_packet (signed_body rest counter index) ++ trailer keys covered)
  unfolding sign_framed
  sign_framed-parts keys high low rest counter index out endpoints h =
      let body = signed_body rest counter index in
      let same : length (42 ∷ 2 ∷ high ∷ low ∷ body) - 4 ≡ length body = omega arith in
      let (_, small, h1) =
        >>=-eq-ok (guard (ltb (length (42 ∷ 2 ∷ high ∷ low ∷ body) - 4) 0x10000) packet) _ h in
      let (covered, header, h2) =
        >>=-eq-ok
          (authenticated_bytes endpoints
            (set_body_len (42 ∷ 2 ∷ high ∷ low ∷ body) (length (42 ∷ 2 ∷ high ∷ low ∷ body) - 4)))
          _ h1 in
      let framed : set_body_len (42 ∷ 2 ∷ high ∷ low ∷ body)
            (length (42 ∷ 2 ∷ high ∷ low ∷ body) - 4)
          ≡ framed_packet body =
        ap (λ n. set_body_len (42 ∷ 2 ∷ high ∷ low ∷ body) n) same in
      (
        covered,
        ground
            (arith, guard-ok (ltb (length (42 ∷ 2 ∷ high ∷ low ∷ body) - 4) 0x10000) packet small),
        subst (λ x. authenticated_bytes endpoints x ≡ ok covered) framed header,
        subst (λ x. out ≡ x ++ trailer keys covered) framed (ground arith),
      )

  pub sign-IsSigned :
      (s t : MacSession) (bytes out : Bytes) (endpoints : DatagramEndpoints) (random : Random)
      → length s.index ≡ 16
      → s.counter < 0x1_0000_0000
      → Random16 random
      → sign s bytes endpoints random ≡ (ok out, t)
      → IsSigned s bytes endpoints out t
  unfolding sign
  sign-IsSigned s t bytes out endpoints random h c r e =
      elim (Result-cases (check_unsigned bytes)) [
        | inr (x, wrong) ↦ absurd (ground arith)
        | inl (u, fine) ↦ elim (Result-cases (fresh_counter s random)) [
          | inr (x, wrong) ↦ absurd (ground arith)
          | inl (f, fresh) ↦
              let input = check_unsigned-IsUnsigned bytes u fine in
              let (index_16, same, counter_fits) = fresh_counter-length s f random h c r fresh in
              let made : sign_framed f.config.keys (with_counter bytes f.counter f.index) endpoints
                  ≡ ok out =
                ground arith in
              let (covered, fits, header, out_eq) =
                sign_framed-parts f.config.keys input.high input.low input.rest f.counter f.index
                  out endpoints
                  (subst
                    (λ x.
                      sign_framed f.config.keys (with_counter x f.counter f.index) endpoints
                      ≡ ok out)
                    input.shape made) in
              record {
                input = input;
                counter = f.counter;
                index = f.index;
                covered = covered;
                index_eq = ground arith;
                counter_eq = ground arith;
                index_16 = index_16;
                counter_fits = counter_fits;
                fits = fits;
                header = header;
                out_eq =
                    subst
                      (λ x.
                        out
                        ≡ framed_packet (signed_body input.rest f.counter f.index)
                          ++ trailer x.keys covered)
                      same out_eq;
              }
        ]
      ]

  -- A packet that `sign` returns is longer than its input by exactly the overhead that the
  -- configuration announces, for an index of sixteen octets.
  pub length-sign :
      (s t : MacSession) (bytes out : Bytes) (endpoints : DatagramEndpoints) (random : Random)
      → length s.index ≡ 16
      → s.counter < 0x1_0000_0000
      → Random16 random
      → sign s bytes endpoints random ≡ (ok out, t)
      → length out ≡ length bytes + overhead s.config
  unfolding overhead
  length-sign s t bytes out endpoints random h c r e =
      let v = sign-IsSigned s t bytes out endpoints random h c r e in
      let body = signed_body v.input.rest v.counter v.index in
      omega (
        arith,
        ap (λ (x : Bytes). length x) v.out_eq,
        ap (λ (x : Bytes). length x) v.input.shape,
        length-append (framed_packet body) (trailer s.config.keys v.covered),
        length-append v.input.rest (pc_type ∷ 20 ∷ (be_bytes32 v.counter ++ v.index)),
        length-trailer s.config.keys v.covered,
        v.index_16,
      )
