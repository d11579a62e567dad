-- ===== src/Mac/Receive/Verified.antt =====
-- A strict session accepts only what a key signed.
use babel_rs.Base.{
  ℕ, ◌≡◌, refl, Bool, true, false, List, [], ◌∷◌, ◌&&◌, any, arith, Bytes, take, drop, inl, inr,
  ◌==◌, Bool-cases, subst,
}
use mathlib.Core.List.{Memᴰ}
use mathlib.Core.Bool.{false≢true}
use babel_rs.Base.Results.{ok, >>=-eq-ok, Result-cases}
use babel_rs.Mac.Keys.{MacKey, Crypto, DatagramEndpoints, authenticated_bytes}
use babel_rs.Mac.Frame.{Element, body_end, tlvs}
use babel_rs.Mac.Session.{MacSession, Random, mac_type}
use babel_rs.Mac.Receive.{verify, key_matches, expire, receive_inner, receive}

any_member {ℓ} :
    {A : Type ℓ} (p : A → Bool) (xs : List A) → any p xs ≡ true → (a : A) × Memᴰ a xs × (p a ≡ true)
any_member p [] h = absurd (false≢true h)
any_member p (x ∷ xs) h = elim (Bool-cases (p x)) [
  | inl e ↦ (x, Memᴰ.head refl, e)
  | inr e ↦ let m = any_member p xs (ground arith) in (m.0, Memᴰ.tail m.1, m.2)
]

module _ ⦃crypto : Crypto⦄ where
  -- What a verification that succeeds has found.
  abbrev Authentic : List MacKey → Bytes → ℕ → DatagramEndpoints → Type 0
  Authentic keys packet end endpoints =
      (elements : List Element) × (tlvs (drop end packet) ≡ ok elements)
      × (bytes : Bytes) × (authenticated_bytes endpoints (take end packet) ≡ ok bytes)
      × (k : MacKey) × Memᴰ k keys
      × Memᴰ (mac_type, crypto.digest k bytes) elements

  matching_element :
      (k : MacKey) (bytes : Bytes) (e : Element)
      → (e.0 == mac_type && crypto.ct_eq (crypto.digest k bytes) e.1) ≡ true
      → e ≡ (mac_type, crypto.digest k bytes)
  matching_element k bytes (t, v) h = ground (arith, crypto.ct_eq_iff (crypto.digest k bytes) v)

  matching_key :
      (keys : List MacKey) (bytes : Bytes) (elements : List Element)
      → any (key_matches bytes elements) keys ≡ true
      → (k : MacKey) × Memᴰ k keys × Memᴰ (mac_type, crypto.digest k bytes) elements
  matching_key keys bytes elements h =
      let (k, member, matched) = any_member (key_matches bytes elements) keys h in
      let (e, inside, same) =
        any_member (λ e. e.0 == mac_type && crypto.ct_eq (crypto.digest k bytes) e.1) elements
          matched in
      (k, member, subst (λ x. Memᴰ x elements) (matching_element k bytes e same) inside)

  verify-Authentic :
      (keys : List MacKey) (packet : Bytes) (end : ℕ) (endpoints : DatagramEndpoints)
      → verify keys packet end endpoints ≡ ok true
      → Authentic keys packet end endpoints
  unfolding verify
  verify-Authentic keys packet end endpoints h =
      let (elements, parsed, tested) = >>=-eq-ok (tlvs (drop end packet)) _ h in
      elim (Bool-cases (any (λ (e : Element). e.0 == mac_type) elements)) [
        | inl e ↦
            let (bytes, covered, matched) =
              >>=-eq-ok (authenticated_bytes endpoints (take end packet)) _ (rw e at tested) in
            let (k, member, inside) = matching_key keys bytes elements (ground arith) in
            (elements, parsed, bytes, covered, k, member, inside)
        | inr e ↦ absurd (ground (arith, (rw e at tested)))
      ]

  -- If a session that demands verification accepts a packet, then the packet is framed, and behind
  -- its body stands a MAC that is the digest of the endpoints and of the packet up to there under
  -- one of the session's keys.
  pub receive_accepted_verified :
      (s : MacSession) (packet : Bytes) (endpoints : DatagramEndpoints) (now : ℕ) (random : Random)
      → s.config.accept_unverified ≡ false
      → (receive s packet endpoints now random).0.accepted ≡ true
      → (end : ℕ) × (body_end packet ≡ ok end)
        × (elements : List Element) × (tlvs (drop end packet) ≡ ok elements)
        × (bytes : Bytes) × (authenticated_bytes endpoints (take end packet) ≡ ok bytes)
        × (k : MacKey) × Memᴰ k s.config.keys
        × Memᴰ (mac_type, crypto.digest k bytes) elements
  unfolding receive receive_inner expire
  receive_accepted_verified s packet endpoints now random strict accepted =
      elim (Result-cases (body_end packet)) [
        | inl (end, framed) ↦ elim (Result-cases (verify s.config.keys packet end endpoints)) [
          | inl (true, e) ↦
              let (elements, parsed, bytes, covered, k, member, inside) =
                verify-Authentic s.config.keys packet end endpoints e in
              (end, framed, elements, parsed, bytes, covered, k, member, inside)
          | inl (false, e) ↦ absurd (ground arith)
          | inr (x, e) ↦ absurd (ground arith)
        ]
        | inr (x, e) ↦ absurd (ground arith)
      ]
