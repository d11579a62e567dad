-- ===== src/Mac/Frame.antt =====
-- Packet framing as the authentication reads it: `body_end`, `tlvs` and `control`.
use babel_rs.Base.{
  ℕ, zero, suc, ◌+◌, ◌%◌, ◌≡◌, List, [], ◌∷◌, ◌++◌, ltb, ◌==◌, ◌&&◌, if◌then◌else◌, Bytes, length,
  take, drop, arith, refl, ◌<◌, ◌≤◌, length-drop, ◌≢◌,
}
use babel_rs.Base.Results.{Result, ok, err}
use babel_rs.Base.Words.{be_bytes16, from_be16}
use babel_rs.Mac.Keys.{MacError, packet}

-- A framed element: its type and its value.
abbrev pub Element : Type 0
Element = ℕ × Bytes

unfoldable pub body_end : Bytes → Result MacError ℕ
body_end (m ∷ v ∷ a ∷ b ∷ rest) =
    if m == 42 && v == 2
    then (if ltb (length rest) (from_be16 a b) then err packet else ok (4 + from_be16 a b))
    else err packet
body_end bytes = err packet

abbrev pub push : Element → Result MacError (List Element) → Result MacError (List Element)
push e (ok es) = ok (e ∷ es)
push e (err x) = err x

-- The element of type `t` whose length and value follow, and what the loop makes of the rest.
abbrev pub framed :
    ℕ → Bytes → (Bytes → Result MacError (List Element)) → Result MacError (List Element)
framed t [] k = err packet
framed t (len ∷ rest) k =
    if ltb (length rest) len then err packet else push (t, take len rest) (k (drop len rest))

-- The loop of `tlvs`, with a round for each octet at most.
unfoldable pub tlvs_loop : ℕ → Bytes → Result MacError (List Element)
tlvs_loop zero bytes = err packet
tlvs_loop (suc fuel) [] = ok []
tlvs_loop (suc fuel) (t ∷ rest) =
    let padded = tlvs_loop fuel rest in if t == 0 then padded else framed t rest (tlvs_loop fuel)

unfoldable pub tlvs : Bytes → Result MacError (List Element)
unfolding tlvs_loop
tlvs bytes = tlvs_loop (suc (length bytes)) bytes

unfoldable pub control : ℕ → Bytes → Bytes
control type_ nonce =
    42 ∷ 2 ∷ (be_bytes16 (length nonce + 2) ++ (type_ ∷ (length nonce % 0x100) ∷ nonce))

-- More fuel than octets is enough: the result is that of any other such fuel.
pub tlvs_loop_enough :
    (f g : ℕ) (bytes : Bytes)
    → length bytes < f
    → length bytes < g
    → tlvs_loop f bytes ≡ tlvs_loop g bytes
unfolding tlvs_loop
tlvs_loop_enough zero g bytes p q = absurd (omega arith)
tlvs_loop_enough (suc f) zero bytes p q = absurd (omega arith)
tlvs_loop_enough (suc f) (suc g) [] p q = refl
tlvs_loop_enough (suc f) (suc g) (t ∷ []) p q =
    ground (arith, tlvs_loop_enough f g [] (omega arith) (omega arith))
tlvs_loop_enough (suc f) (suc g) (t ∷ len ∷ rest) p q = ground (
  arith,
  tlvs_loop_enough f g (len ∷ rest) (omega arith) (omega arith),
  tlvs_loop_enough f g (drop len rest) (omega (arith, length-drop len rest))
      (omega (arith, length-drop len rest)),
)

-- The loop without its fuel: a padding octet is skipped.
pub tlvs-pad : (rest : Bytes) → tlvs (0 ∷ rest) ≡ tlvs rest
unfolding tlvs tlvs_loop
tlvs-pad rest = refl

-- An element is read whole.
pub tlvs-element :
    (t len : ℕ) (rest : Bytes)
    → t ≢ 0
    → len ≤ length rest
    → tlvs (t ∷ len ∷ rest) ≡ push (t, take len rest) (tlvs (drop len rest))
unfolding tlvs tlvs_loop
tlvs-element t len rest typed fits = ground (
  arith,
  tlvs_loop_enough (suc (suc (length rest))) (suc (length (drop len rest))) (drop len rest)
      (omega (arith, length-drop len rest)) (omega arith),
)

-- An element that is cut short is an error.
pub tlvs-short :
    (t len : ℕ) (rest : Bytes) → t ≢ 0 → length rest < len → tlvs (t ∷ len ∷ rest) ≡ err packet
unfolding tlvs tlvs_loop
tlvs-short t len rest typed short = ground arith

pub tlvs-lone : (t : ℕ) → t ≢ 0 → tlvs (t ∷ []) ≡ err packet
unfolding tlvs tlvs_loop
tlvs-lone t typed = ground arith
