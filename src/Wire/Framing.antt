-- ===== src/Wire/Framing.antt =====
-- How octets are framed as elements of type, length and value (the loops of
-- crates/babel-protocol/src/wire/decode.rs and packetizer.rs).
use babel_rs.Base.{
  ℕ, ◌≡◌, ◌<◌, refl, sym, subst, false, [], ◌∷◌, ◌++◌, ltb, ◌==◌, Bytes, length, take, drop, arith,
  inl, inr, Bool-cases, length-take, take-drop,
}
use babel_rs.Wire.Frame.{Frame, done, pad, cut, element, framed, next_frame}

-- What octets have that frame at their front.
pub data Framing : Bytes → Frame → Type 0 where
  at_end : Framing [] done
  at_pad : (rest : Bytes) → Framing (0 ∷ rest) (pad rest)
  at_cut : (bytes : Bytes) (t : ℕ) → next_frame bytes ≡ cut t → Framing bytes (cut t)
  at_element :
      (t : ℕ) (value rest : Bytes)
      → (t == 0) ≡ false
      → Framing (t ∷ length value ∷ value ++ rest) (element t value rest)

pub next_frame-Framing : (bytes : Bytes) → Framing bytes (next_frame bytes)
unfolding next_frame
next_frame-Framing [] = at_end
next_frame-Framing (t ∷ rest) = elim (Bool-cases (t == 0)) [
  | inl e ↦
      let z : t ≡ 0 = ground arith in
      subst (λ (k : ℕ). Framing (k ∷ rest) (next_frame (k ∷ rest))) (sym z) (at_pad rest)
  | inr e ↦ rw e (framed_lem t rest e)
]
  where
    framed_lem : (t : ℕ) (rest : Bytes) → (t == 0) ≡ false → Framing (t ∷ rest) (framed t rest)
    framed_lem t [] nz = at_cut (t ∷ []) t (rw nz refl)
    framed_lem t (len ∷ rest) nz = elim (Bool-cases (ltb (length rest) len)) [
      | inl e ↦ rw e (at_cut (t ∷ len ∷ rest) t (rw (nz, e) refl))
      | inr e ↦
          let n : length (take len rest) ≡ len = ground (arith, length-take len rest) in
          rw e (
            subst (λ (w : Bytes). Framing (t ∷ w) (element t (take len rest) (drop len rest)))
              (rw (n, take-drop len rest) refl) (at_element t (take len rest) (drop len rest) nz))
    ]

-- Octets that start an element of a type and end before its length or its value is complete.
pub data IsCut : ℕ → Bytes → Type 0 where
  cut_length : (t : ℕ) → 0 < t → IsCut t (t ∷ [])
  cut_value : (t len : ℕ) (rest : Bytes) → 0 < t → length rest < len → IsCut t (t ∷ len ∷ rest)

framed-IsCut : (t k : ℕ) (rest : Bytes) → 0 < k → framed k rest ≡ cut t → IsCut t (k ∷ rest)
framed-IsCut t k [] pos e =
    let same : k ≡ t = cc in subst (λ (x : ℕ). IsCut x (k ∷ [])) same (cut_length k pos)
framed-IsCut t k (len ∷ rest) pos e = elim (Bool-cases (ltb (length rest) len)) [
  | inl short ↦
      let step : cut k ≡ cut t = rw short at e in
      let same : k ≡ t = cc in
      subst (λ (x : ℕ). IsCut x (k ∷ len ∷ rest)) same
        (cut_value k len rest pos (ground (arith, short)))
  | inr whole ↦
      let step : element k (take len rest) (drop len rest) ≡ cut t = rw whole at e in absurd cc
]

pub next_frame-IsCut : (t : ℕ) (bytes : Bytes) → next_frame bytes ≡ cut t → IsCut t bytes
unfolding next_frame
next_frame-IsCut t [] e = absurd cc
next_frame-IsCut t (k ∷ rest) e = elim (Bool-cases (k == 0)) [
  | inl z ↦ let step : pad rest ≡ cut t = rw z at e in absurd cc
  | inr nz ↦ framed-IsCut t k rest (ground (arith, nz)) (rw nz at e)
]

-- Octets that are reached from the front of others behind whole elements and lone octets.
pub data StandsIn : Bytes → Bytes → Type 0 where
  in_front : (bytes : Bytes) → StandsIn bytes bytes
  behind_pad : (rest bytes : Bytes) → StandsIn rest bytes → StandsIn (0 ∷ rest) bytes
  behind_element :
      (t : ℕ) (value rest bytes : Bytes)
      → 0 < t
      → StandsIn rest bytes
      → StandsIn (t ∷ length value ∷ value ++ rest) bytes
