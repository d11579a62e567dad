-- ===== src/Wire/Prefix/RoundTrip.antt =====
-- Octets of a prefix: the mask of its last octet, and the octets that the wire leaves out.
use babel_rs.Base.{
  ℕ, ◌+◌, if◌then◌else◌, zero, suc, ◌-◌, ◌*◌, ◌%◌, ◌^◌, ◌≤◌, ◌<◌, ◌≡◌, refl, sym, subst, ap, [],
  ◌∷◌, leb, ◌==◌, ==_iff, Bytes, length, take, bit_and, arith, inl, inr, Bool-cases, All,
}
use babel_rs.Model.{mask, mask_octet}
use babel_rs.Wire.Prefix.{pad_to, octets_of_bits, mask_last, masked}

abbrev pub IsOctets : Bytes → Type 0
IsOctets = All (λ b. b < 0x100)

-- The octet that the source masks by `0xff << k`, against the one without its last `k` bits: the
-- number of octets below a bound that come out differently, for the shifts below another.
abbrev source_masked : ℕ → ℕ → ℕ
source_masked k octet = bit_and octet (0xff * 2 ^ k % 0x100)

octets_differing : (shift bound : ℕ) → ℕ
octets_differing shift zero = 0
octets_differing shift (suc octet) =
    let smaller = octets_differing shift octet in
    if source_masked shift octet == mask_octet shift octet then smaller else suc smaller

masks_differing : (shifts : ℕ) → ℕ
masks_differing zero = 0
masks_differing (suc shift) = masks_differing shift + octets_differing shift 0x100

none_differing : masks_differing 8 ≡ 0
unfolding masks_differing octets_differing
none_differing = refl

same_octet :
    (shift bound octet : ℕ)
    → octet < bound
    → octets_differing shift bound ≡ 0
    → source_masked shift octet ≡ mask_octet shift octet
unfolding octets_differing
same_octet shift zero octet within none = absurd (omega arith)
same_octet shift (suc last) octet within none =
    elim (Bool-cases (source_masked shift last == mask_octet shift last)) [
      | inr e ↦
          let count : suc (octets_differing shift last) ≡ 0 = rw e at none in absurd (omega arith)
      | inl e ↦
          let fewer : octets_differing shift last ≡ 0 = rw e at none in
          elim (Bool-cases (octet == last)) [
            | inl here ↦
                let position : octet ≡ last = (==_iff octet last).0 here in
                rw position ((==_iff (source_masked shift last) (mask_octet shift last)).0 e)
            | inr elsewhere ↦ same_octet shift last octet (ground arith) fewer
          ]
    ]

same_shift :
    (shifts shift : ℕ)
    → shift < shifts
    → masks_differing shifts ≡ 0
    → octets_differing shift 0x100 ≡ 0
unfolding masks_differing
same_shift zero shift within none = absurd (omega arith)
same_shift (suc last) shift within none = elim (Bool-cases (shift == last)) [
  | inl here ↦ let position : shift ≡ last = (==_iff shift last).0 here in rw position (omega arith)
  | inr earlier ↦ same_shift last shift (ground arith) (omega arith)
]

bit_and-mask_octet :
    (k x : ℕ) → k < 8 → x < 0x100 → bit_and x (0xff * 2 ^ k % 0x100) ≡ mask_octet k x
bit_and-mask_octet k x hk hx = same_octet k 0x100 x hx (same_shift 8 k hk none_differing)

cons_parts : {x y : ℕ} {xs ys : Bytes} → ◌≡◌ {A = Bytes} (x ∷ xs) (y ∷ ys) → (x ≡ y) × (xs ≡ ys)
cons_parts h = ground (arith, h)

-- Octets without a bit are zeroes.
pad_to-mask_zero : (xs : Bytes) → IsOctets xs → mask 0 xs ≡ xs → pad_to (length xs) [] ≡ xs
pad_to-mask_zero [] small h = refl
pad_to-mask_zero (x ∷ xs) small h =
    let (head, tail) = cons_parts h in
    let none_set : 0 ≡ x = omega arith in
    rw (pad_to-mask_zero xs small.1 tail) (ap (λ (y : ℕ). y ∷ xs) none_set)

-- The last octets that are kept are masked already.
masked_single :
    (plen x : ℕ)
    → 0 < plen
    → plen ≤ 8
    → x < 0x100
    → mask_octet (8 - plen) x ≡ x
    → masked plen (x ∷ []) ≡ x ∷ []
masked_single plen x pos le small h = elim (Bool-cases (plen % 8 == 0)) [
  | inl e ↦ rw e refl
  | inr e ↦
      let k : 8 - plen % 8 ≡ 8 - plen = ground arith in
      rw (e, k, bit_and-mask_octet (8 - plen) x (omega arith) small, h) refl
]

masked-cons :
    (plen x y : ℕ) (ys : Bytes)
    → 8 < plen
    → masked plen (x ∷ y ∷ ys) ≡ x ∷ masked (plen - 8) (y ∷ ys)
masked-cons plen x y ys h =
    let same : plen % 8 ≡ (plen - 8) % 8 = omega arith in
    elim (Bool-cases ((plen - 8) % 8 == 0)) [
      | inl e ↦ rw (same, e) refl
      | inr e ↦ rw (same, e) (ap (λ (m : ℕ). x ∷ mask_last (8 - m) (y ∷ ys)) same)
    ]

-- Masked and padded, the octets that carry the prefix are the whole address.
pub pad_to-masked :
    (xs : Bytes) (plen : ℕ)
    → IsOctets xs
    → plen ≤ 8 * length xs
    → mask plen xs ≡ xs
    → pad_to (length xs) (masked plen (take (octets_of_bits plen) xs)) ≡ xs
pad_to-masked [] plen small le h = refl
pad_to-masked (x ∷ xs) plen small le h = elim (Bool-cases (plen == 0)) [
  | inl z ↦
      let e : plen ≡ 0 = ground arith in
      let whole =
        pad_to-mask_zero (x ∷ xs) small (subst (λ (p : ℕ). mask p (x ∷ xs) ≡ x ∷ xs) e h) in
      subst
        (λ (p : ℕ). pad_to (length (x ∷ xs)) (masked p (take (octets_of_bits p) (x ∷ xs))) ≡ x ∷ xs)
        (sym e) whole
  | inr nz ↦
      let (head, tail) = cons_parts h in
      elim (Bool-cases (leb plen 8)) [
        | inl one ↦
            let s : octets_of_bits plen ≡ 1 = ground arith in
            let rest : plen - 8 ≡ 0 = ground arith in
            rw (s, masked_single plen x (ground arith) (ground arith) small.0 head)
              (ap (◌∷◌ x)
                (pad_to-mask_zero xs small.1 (subst (λ (p : ℕ). mask p xs ≡ xs) rest tail)))
        | inr more ↦
            pad_long x xs plen small (ground arith) le tail
              (pad_to-masked xs (plen - 8) small.1 (ground arith) tail)
      ]
]
  where
    pad_long :
        (x : ℕ) (xs : Bytes) (plen : ℕ)
        → IsOctets (x ∷ xs)
        → 8 < plen
        → plen ≤ 8 * suc (length xs)
        → mask (plen - 8) xs ≡ xs
        → pad_to (length xs) (masked (plen - 8) (take (octets_of_bits (plen - 8)) xs)) ≡ xs
        → pad_to (suc (length xs)) (masked plen (take (octets_of_bits plen) (x ∷ xs))) ≡ x ∷ xs
    pad_long x [] plen small big le tail ih = absurd (omega arith)
    pad_long x (y ∷ ys) plen small big le tail ih =
        let s : octets_of_bits plen ≡ suc (octets_of_bits (plen - 8)) = omega arith in
        let t : octets_of_bits (plen - 8) ≡ suc (octets_of_bits (plen - 8) - 1) = omega arith in
        let ih' : pad_to (suc (length ys))
              (masked (plen - 8) (y ∷ take (octets_of_bits (plen - 8) - 1) ys))
            ≡ y ∷ ys =
          rw t at ih in
        rw (s, t, masked-cons plen x y (take (octets_of_bits (plen - 8) - 1) ys) big)
          (ap (◌∷◌ x) ih')
