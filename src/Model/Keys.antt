-- ===== src/Model/Keys.antt =====
-- Route keys (crates/babel-protocol/src/model.rs).
use babel_rs.Base.{
  ◌≡◌, ◌↔◌, ◌<◌, refl, sym, ap, subst, ◌∙◌, false, Option, none, some, ◌==◌, inl, inr, Bool-cases,
  arith,
}
use babel_rs.Model.{
  IpNet, IpAddr, v4, v6, is_ipv4, octets, mask, RouteKey, kept_source, other_family, route_key_new,
}

-- An address is its family and its octets.
ip_ext : (a b : IpAddr) → is_ipv4 a ≡ is_ipv4 b → octets a ≡ octets b → a ≡ b
ip_ext (v4 a) (v4 b) f h = ap v4 h
ip_ext (v6 a) (v6 b) f h = ap v6 h
ip_ext (v4 a) (v6 b) f h = absurd (ground (arith, f))
ip_ext (v6 a) (v4 b) f h = absurd (ground (arith, f))

some_inj : {A : Type 0} {a b : A} → some a ≡ some b → a ≡ b
some_inj h = cc

some-none : {A : Type 0} (a : A) → none ≡ some a → ⊥
some-none a h = cc

module _ {N : Type 0} ⦃net : IpNet N⦄ where
  -- The network of a prefix: the same length and family, with the bits behind the length cleared.
  pub record IsNetworkOf (n network : N) : Type 0 where
    pub same_length : net.prefix_len network ≡ net.prefix_len n
    pub same_family : is_ipv4 (net.addr network) ≡ is_ipv4 (net.addr n)
    pub cleared : octets (net.addr network) ≡ mask (net.prefix_len n) (octets (net.addr n))

  -- The source of a key for the source that is asked for: none without one or for a prefix of length
  -- 0, and otherwise the network of that prefix. It is of the destination's family.
  pub data IsSourceOf (destination : N) : Option N → Option N → Type 0 where
    no_source : IsSourceOf destination none none
    default_source :
        (s : N)
        → is_ipv4 (net.addr s) ≡ is_ipv4 (net.addr destination)
        → net.prefix_len s ≡ 0
        → IsSourceOf destination (some s) none
    specific_source :
        (s kept : N)
        → is_ipv4 (net.addr s) ≡ is_ipv4 (net.addr destination)
        → 0 < net.prefix_len s
        → IsNetworkOf s kept
        → IsSourceOf destination (some s) (some kept)

  trunc-IsNetworkOf : (n : N) → IsNetworkOf n (net.trunc n)
  trunc-IsNetworkOf n = record {
    same_length = net.prefix_len-trunc n;
    same_family = net.is_ipv4-trunc n;
    cleared = net.octets-trunc n;
  }

  trunc_unique : (n network : N) → IsNetworkOf n network → net.trunc n ≡ network
  trunc_unique n network h =
      net.net_ext (net.trunc n) network
        (ip_ext _ _ (net.is_ipv4-trunc n ∙ sym h.same_family) (net.octets-trunc n ∙ sym h.cleared))
        (net.prefix_len-trunc n ∙ sym h.same_length)

  kept-IsSourceOf :
      (d : N) (s : Option N) → other_family d s ≡ false → IsSourceOf d s (kept_source s)
  kept-IsSourceOf d none h = no_source
  kept-IsSourceOf d (some s) h =
      let family : is_ipv4 (net.addr s) ≡ is_ipv4 (net.addr d) = ground (arith, h) in
      elim (Bool-cases (net.prefix_len s == 0)) [
        | inl e ↦ rw e (default_source s family (ground (arith, e)))
        | inr e ↦
            rw e (specific_source s (net.trunc s) family (ground (arith, e)) (trunc-IsNetworkOf s))
      ]

  kept_unique :
      (d : N) (s kept : Option N)
      → IsSourceOf d s kept
      → (other_family d s ≡ false) × (kept_source s ≡ kept)
  kept_unique d _ _ no_source = (refl, refl)
  kept_unique d _ _ (default_source s family zero_length) =
      (ground (arith, family), ground (arith, zero_length))
  kept_unique d _ _ (specific_source s kept family longer h) =
      (ground (arith, family), ground (arith, longer, trunc_unique s kept h))

  -- A route key is made exactly of the network of its destination and of a source of the same
  -- family, which is none for a source of length 0 and otherwise the network of that source. For a
  -- source of the other family there is no key.
  pub route_key_new_iff :
      (destination : N) (source : Option N) (key : RouteKey N)
      → (route_key_new destination source ≡ some key)
        ↔ (IsNetworkOf destination key.destination × IsSourceOf destination source key.source)
  unfolding route_key_new
  route_key_new_iff d s key = (
    λ h. elim (Bool-cases (other_family d s)) [
      | inl e ↦ absurd (some-none key (rw e at h))
      | inr e ↦
          let made : record { destination = net.trunc d; source = kept_source s } ≡ key =
            some_inj (rw e at h) in
          subst (λ (k : RouteKey N). IsNetworkOf d k.destination × IsSourceOf d s k.source) made
            (trunc-IsNetworkOf d, kept-IsSourceOf d s e)
    ],
    λ h.
        let (family, kept) = kept_unique d s key.source h.1 in
        rw (family, trunc_unique d key.destination h.0, kept) refl,
  )

  -- A key that is made is canonical: making it again from its own prefixes gives it back.
  route_key_new_canonical :
      (destination : N) (source : Option N) (key : RouteKey N)
      → route_key_new destination source ≡ some key
      → route_key_new key.destination key.source ≡ some key
  unfolding route_key_new
  route_key_new_canonical d none key h = ground (arith, net.trunc_twice d)
  route_key_new_canonical d (some s) key h = ground (
    arith,
    net.trunc_twice d,
    net.trunc_twice s,
    net.prefix_len-trunc s,
    net.is_ipv4-trunc d,
    net.is_ipv4-trunc s,
  )
