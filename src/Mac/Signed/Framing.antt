-- ===== src/Mac/Signed/Framing.antt =====
-- How a receiver reads a signed packet: its end, its trailer and its elements.
use native.Mathlib.Decide.{dec_le}
use babel_rs.Base.{
  ◌≢◌, ℕ, zero, suc, ◌+◌, ◌*◌, ◌/◌, ◌%◌, ◌≡◌, ◌≤◌, ◌<◌, refl, Bool, true, false, List, [], ◌∷◌,
  ◌++◌, Option, none, some, arith, Bytes, take, drop, ◌==◌, length, length-append, length-drop, ap,
  any, ◌∙◌, sym, subst, map, take-append, drop-append,
}
use mathlib.Core.List.{Memᴰ}
use babel_rs.Base.Results.{Result, ok, err}
use babel_rs.Base.Words.{be_bytes32, from_be32}
use babel_rs.Mac.Keys.{
  MacError, MacAlgorithm, hmac_sha256, blake2s128, MacKey, Crypto, DatagramEndpoints, digest_len,
}
use babel_rs.Mac.Frame.{
  Element, body_end, tlvs, tlvs_loop, push, tlvs-pad, tlvs-element, tlvs-short, tlvs-lone,
}
use babel_rs.Mac.Session.{MacSession, trailer, mac_type, pc_type, is_authentication}
use babel_rs.Mac.Receive.{verify, key_matches, scan, scan_element, Scan}
use babel_rs.Mac.Signed.{signed_body, framed_packet, IsSigned, take_all}

digest_len_bounds : (a : MacAlgorithm) → (0 < digest_len a) × (digest_len a < 256)
digest_len_bounds hmac_sha256 = omega arith
digest_len_bounds blake2s128 = omega arith

push-ok :
    (e : Element) (r : Result MacError (List Element)) {es : List Element}
    → push e r ≡ ok es
    → (ds : List Element) × (r ≡ ok ds) × (es ≡ e ∷ ds)
push-ok e (ok ds) h = (ds, refl, ground arith)
push-ok e (err x) h = cc

take-append_le : (n : ℕ) (xs ys : Bytes) → n ≤ length xs → take n (xs ++ ys) ≡ take n xs
take-append_le zero xs ys h = refl
take-append_le (suc n) [] ys h = absurd (omega arith)
take-append_le (suc n) (x ∷ xs) ys h = ap (◌∷◌ x) (take-append_le n xs ys (omega arith))

drop-append_le : (n : ℕ) (xs ys : Bytes) → n ≤ length xs → drop n (xs ++ ys) ≡ drop n xs ++ ys
drop-append_le zero xs ys h = refl
drop-append_le (suc n) [] ys h = absurd (omega arith)
drop-append_le (suc n) (x ∷ xs) ys h = drop-append_le n xs ys (omega arith)

drop_all : (xs : Bytes) (n : ℕ) → n ≡ length xs → drop n xs ≡ []
drop_all [] zero e = refl
drop_all [] (suc n) e = refl
drop_all (x ∷ xs) zero e = absurd (omega arith)
drop_all (x ∷ xs) (suc n) e = drop_all xs n (omega arith)

-- One element in front of others.
tlvs-cons :
    (t : ℕ) (v rest : Bytes) (es : List Element)
    → t ≢ 0
    → tlvs rest ≡ ok es
    → tlvs (t ∷ (length v) ∷ (v ++ rest)) ≡ ok ((t, v) ∷ es)
tlvs-cons t v rest es typed h = rw (
  tlvs-element t (length v) (v ++ rest) typed (omega (arith, length-append v rest)),
  take-append v rest (length v) refl,
  drop-append v rest (length v) refl,
  h,
)

-- Elements behind others.
tlvs-append :
    (f : ℕ) (xs ys : Bytes) (es more : List Element)
    → length xs < f
    → tlvs xs ≡ ok es
    → tlvs ys ≡ ok more
    → tlvs (xs ++ ys) ≡ ok (es ++ more)
tlvs-append zero xs ys es more fuel h k = absurd (omega arith)
tlvs-append (suc f) [] ys es more fuel h k =
    let none_found : es ≡ [] = unfold tlvs tlvs_loop in ground arith in rw none_found k
tlvs-append (suc f) (zero ∷ xs) ys es more fuel h k =
    rw (tlvs-pad (xs ++ ys)) (tlvs-append f xs ys es more (omega arith) (sym (tlvs-pad xs) ∙ h) k)
tlvs-append (suc f) (suc t ∷ []) ys es more fuel h k =
    absurd (ground (arith, tlvs-lone (suc t) (omega arith)))
tlvs-append (suc f) (suc t ∷ len ∷ xs) ys es more fuel h k = elim (dec_le len (length xs)) [
  | no p ↦ absurd (ground (arith, tlvs-short (suc t) len xs (omega arith) (omega arith)))
  | yes p ↦
      let (ds, rest, first) =
        push-ok (suc t, take len xs) (tlvs (drop len xs))
          (sym (tlvs-element (suc t) len xs (omega arith) p) ∙ h) in
      rw (
        tlvs-element (suc t) len (xs ++ ys) (omega arith) (omega (arith, length-append xs ys)),
        take-append_le len xs ys p,
        drop-append_le len xs ys p,
        tlvs-append f (drop len xs) ys ds more (omega (arith, length-drop len xs)) rest k,
        first,
      )
]

module _ ⦃crypto : Crypto⦄ where
  abbrev macs : List MacKey → Bytes → List Element
  macs keys covered = map (λ k. (mac_type, crypto.digest k covered)) keys

  tlvs-trailer :
      (keys : List MacKey) (covered : Bytes) → tlvs (trailer keys covered) ≡ ok (macs keys covered)
  unfolding trailer
  tlvs-trailer [] covered = unfold tlvs tlvs_loop in refl
  tlvs-trailer (k ∷ ks) covered =
      let size : length (crypto.digest k covered) % 0x100 ≡ length (crypto.digest k covered) =
        omega (arith, crypto.length-digest k covered, digest_len_bounds k.algorithm) in
      rw size (
        tlvs-cons mac_type (crypto.digest k covered) (trailer ks covered) (macs ks covered)
          (omega arith) (tlvs-trailer ks covered))

  any_mac :
      (keys : List MacKey) (covered : Bytes) (k : MacKey)
      → Memᴰ k keys
      → any (λ (e : Element). e.0 == mac_type) (macs keys covered) ≡ true
  any_mac [] covered k m = elim m [ ]
  any_mac (x ∷ ks) covered k m = refl

  -- A key that made one of the MACs matches.
  key_matches-macs :
      (keys : List MacKey) (covered : Bytes) (k : MacKey)
      → Memᴰ k keys
      → key_matches covered (macs keys covered) k ≡ true
  key_matches-macs [] covered k m = elim m [ ]
  key_matches-macs (x ∷ ks) covered k (Memᴰ.head e) =
      let same =
        (crypto.ct_eq_iff (crypto.digest k covered) (crypto.digest x covered)).1
          (ap (λ y. crypto.digest y covered) e) in
      ground arith
  key_matches-macs (x ∷ ks) covered k (Memᴰ.tail m) =
      ground (arith, key_matches-macs ks covered k m)

  any-Memᴰ :
      (p : MacKey → Bool) (keys : List MacKey) (k : MacKey)
      → Memᴰ k keys
      → p k ≡ true
      → any p keys ≡ true
  any-Memᴰ p [] k m h = elim m [ ]
  any-Memᴰ p (x ∷ ks) k (Memᴰ.head e) h =
      let here : p x ≡ true = subst (λ y. p y ≡ true) e h in ground arith
  any-Memᴰ p (x ∷ ks) k (Memᴰ.tail m) h = ground (arith, any-Memᴰ p ks k m h)

  module _ (s t : MacSession) (bytes out : Bytes) (endpoints : DatagramEndpoints)
      (v : IsSigned s bytes endpoints out t) where
    abbrev body : Bytes
    body = signed_body v.input.rest v.counter v.index

    length-body : length body + 4 ≡ length bytes + 22
    length-body = omega (
      arith,
      ap (λ (x : Bytes). length x) v.input.shape,
      length-append v.input.rest (pc_type ∷ 20 ∷ (be_bytes32 v.counter ++ v.index)),
      v.index_16,
    )

    pub body_end-signed : body_end out ≡ ok (length bytes + 22)
    unfolding body_end
    body_end-signed =
        let n = length body in
        let whole : n / 0x100 % 0x100 * 0x100 + n % 0x100 ≡ n = omega (arith, v.fits) in
        rw v.out_eq
          (ground (arith, length-append body (trailer s.config.keys v.covered), length-body))

    take-signed : take (length bytes + 22) out ≡ framed_packet body
    take-signed = rw v.out_eq (
        take-append (framed_packet body) (trailer s.config.keys v.covered) (length bytes + 22)
          (omega (arith, length-body)))

    drop-signed : drop (length bytes + 22) out ≡ trailer s.config.keys v.covered
    drop-signed = rw v.out_eq (
        drop-append (framed_packet body) (trailer s.config.keys v.covered) (length bytes + 22)
          (omega (arith, length-body)))

    pub verify-signed :
        (keys : List MacKey) (k : MacKey)
        → Memᴰ k keys
        → Memᴰ k s.config.keys
        → verify keys out (length bytes + 22) endpoints ≡ ok true
    unfolding verify
    verify-signed keys k mine theirs = rw (
      drop-signed,
      take-signed,
      tlvs-trailer s.config.keys v.covered,
      any_mac s.config.keys v.covered k theirs,
      v.header,
      any-Memᴰ (key_matches v.covered (macs s.config.keys v.covered)) keys k mine
          (key_matches-macs s.config.keys v.covered k theirs),
    )

    pub tlvs-signed :
        tlvs (drop 4 (take (length bytes + 22) out))
        ≡ ok (v.input.elements ++ ((pc_type, be_bytes32 v.counter ++ v.index) ∷ []))
    tlvs-signed =
        let value = be_bytes32 v.counter ++ v.index in
        let size : 20 ≡ length value = omega (arith, v.index_16) in
        let one : tlvs (pc_type ∷ 20 ∷ value) ≡ ok ((pc_type, value) ∷ []) =
          rw
            (
              tlvs-element pc_type 20 value (omega arith) (omega arith),
              take_all value 20 size,
              drop_all value 20 size,
            )
            (unfold tlvs tlvs_loop in refl) in
        rw take-signed (
          tlvs-append (suc (length v.input.rest)) v.input.rest (pc_type ∷ 20 ∷ value)
            v.input.elements ((pc_type, value) ∷ []) (omega arith) v.input.parsed one)

  scan_element-plain :
      (sent : Option (Bytes × ℕ)) (multicast : Bool) (now : ℕ) (f : Scan) (e : Element)
      → is_authentication e ≡ false
      → f.counter ≡ none
      → (scan_element sent multicast now f e).counter ≡ none
  unfolding scan_element
  scan_element-plain sent multicast now f (t, w) plain h = ground arith

  -- Behind elements of other types the counter element is the first of its kind.
  pub scan-signed :
      (sent : Option (Bytes × ℕ)) (multicast : Bool) (now : ℕ) (f : Scan) (es : List Element)
      (counter : ℕ) (index : Bytes)
      → any is_authentication es ≡ false
      → f.counter ≡ none
      → counter < 0x1_0000_0000
      → length index ≡ 16
      → (scan sent multicast now f (es ++ ((pc_type, be_bytes32 counter ++ index) ∷ []))).counter
        ≡ some (counter, index)
  unfolding scan
  scan-signed sent multicast now f [] counter index plain h c i =
      let back : from_be32 (counter / 0x100_0000 % 0x100) (counter / 0x1_0000 % 0x100)
            (counter / 0x100 % 0x100) (counter % 0x100)
          ≡ counter =
        omega arith in
      unfold scan_element in ground arith
  scan-signed sent multicast now f (e ∷ es) counter index plain h c i =
      scan-signed sent multicast now (scan_element sent multicast now f e) es counter index
        (ground arith) (scan_element-plain sent multicast now f e (ground arith) h) c i
