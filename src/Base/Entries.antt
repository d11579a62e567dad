-- ===== src/Base/Entries.antt =====
-- Predicates on the values of a keyed collection, and its size, through insertion and removal.
use babel_rs.Base.Tests.{Eq, ◌=?◌, Bool-cases}
use babel_rs.Base.Lists.{length, All}
use babel_rs.Base.Map.{Map, insert, remove}
use Prim.Native.Nat.{◌≤◌}
use mathlib.Core.Path.{◌≡◌, refl}
use mathlib.Core.Logic.{inl, inr}
use mathlib.Core.List.{List, [], ◌∷◌, map}
use native.Mathlib.Omega.{arith}

module _ {ℓ κ μ} {K : Type ℓ} {V : Type κ} (P : V → Type μ) where
  -- Every value has the property.
  abbrev pub AllValues : Map K V → Type μ
  AllValues = All (λ p. P p.1)

  pub map-AllValues :
      (f : K × V → K × V)
      → ((p : K × V) → P p.1 → P (f p).1)
      → (m : Map K V) → AllValues m
      → AllValues (map f m)
  map-AllValues f step [] h = tt
  map-AllValues f step (p ∷ m) h = (step p h.0, map-AllValues f step m h.1)

module _ {ℓ κ μ} {K : Type ℓ} {V : Type κ} ⦃e : Eq K⦄ (P : V → Type μ) where
  pub insert-AllValues :
      (k : K) (v : V) (m : Map K V) → P v → AllValues P m → AllValues P (insert k v m)
  unfolding insert
  insert-AllValues k v [] new h = (new, tt)
  insert-AllValues k v ((j, w) ∷ m) new h = elim (Bool-cases (j =? k)) [
    | inl hit ↦ rw hit (new, h.1)
    | inr miss ↦ rw miss (h.0, insert-AllValues k v m new h.1)
  ]

  pub remove-AllValues : (k : K) (m : Map K V) → AllValues P m → AllValues P (remove k m)
  unfolding remove
  remove-AllValues k [] h = tt
  remove-AllValues k ((j, w) ∷ m) h = elim (Bool-cases (j =? k)) [
    | inl hit ↦ rw hit (remove-AllValues k m h.1)
    | inr miss ↦ rw miss (h.0, remove-AllValues k m h.1)
  ]

pub length-remove {ℓ κ} :
    {K : Type ℓ} {V : Type κ} ⦃e : Eq K⦄ (k : K) (m : Map K V) → length (remove k m) ≤ length m
unfolding remove
length-remove k [] = omega arith
length-remove k ((j, w) ∷ m) = ground (arith, length-remove k m)

pub length-map {ℓ κ} :
    {A : Type ℓ} {B : Type κ} (f : A → B) (xs : List A) → length (map f xs) ≡ length xs
length-map f [] = refl
length-map f (x ∷ xs) = omega (arith, length-map f xs)
