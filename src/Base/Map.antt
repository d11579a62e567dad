-- ===== src/Base/Map.antt =====
-- Keyed collections (`BTreeMap`, `HashMap`) as association lists with one entry for a key.
use babel_rs.Base.Tests.{Eq, ◌=?◌, if◌then◌else◌, Bool-cases}
use mathlib.Core.Logic.{inl, inr}
use babel_rs.Base.Lists.{length}
use Prim.Native.Nat.{◌+◌, ◌≤◌}
use mathlib.Core.Path.{◌≡◌, refl, subst, ap, ◌∙◌}
use mathlib.Core.Bool.{Bool, true, false}
use mathlib.Core.List.{List, [], ◌∷◌}
use mathlib.Core.Option.{Option, none, some}
use native.Mathlib.Omega.{arith}

abbrev pub Map {ℓ κ} : Type ℓ → Type κ → Type (ℓ ⊔ κ)
Map K V = List (K × V)

abbrev pub is_some {ℓ} : {A : Type ℓ} → Option A → Bool
is_some none = false
is_some (some a) = true

module _ {ℓ κ} {K : Type ℓ} {V : Type κ} ⦃e : Eq K⦄ where
  unfoldable pub lookup : K → Map K V → Option V
  lookup k [] = none
  lookup k ((j, v) ∷ m) = if j =? k then some v else lookup k m

  -- An entry for a key that is present is replaced in its place; a new one goes to the end.
  unfoldable pub insert : K → V → Map K V → Map K V
  insert k v [] = (k, v) ∷ []
  insert k v ((j, w) ∷ m) = if j =? k then (k, v) ∷ m else (j, w) ∷ insert k v m

  unfoldable pub remove : K → Map K V → Map K V
  remove k [] = []
  remove k ((j, w) ∷ m) = if j =? k then remove k m else (j, w) ∷ remove k m

  abbrev pub contains_key : K → Map K V → Bool
  contains_key k m = is_some (lookup k m)

  pub lookup-insert :
      (k j : K) (v : V) (m : Map K V)
      → lookup j (insert k v m) ≡ (if k =? j then some v else lookup j m)
  unfolding lookup insert
  lookup-insert k j v [] = refl
  lookup-insert k j v ((i, w) ∷ m) =
      ground (arith, e.beq_iff k j, e.beq_iff i k, e.beq_iff i j, lookup-insert k j v m)

  pub lookup-remove :
      (k j : K) (m : Map K V) → lookup j (remove k m) ≡ (if k =? j then none else lookup j m)
  unfolding lookup remove
  lookup-remove k j [] = ground arith
  lookup-remove k j ((i, w) ∷ m) =
      ground (arith, e.beq_iff k j, e.beq_iff i k, e.beq_iff i j, lookup-remove k j m)

  pub length-insert :
      (k : K) (v : V) (m : Map K V)
      → length (insert k v m) ≡ (if is_some (lookup k m) then length m else length m + 1)
  unfolding lookup insert
  length-insert k v [] = omega arith
  length-insert k v ((i, w) ∷ m) = ground (arith, length-insert k v m)

module _ {ℓ κ} {K : Type ℓ} {V : Type κ} where
  -- `retain`: the entries that pass the test, in their order.
  unfoldable pub retain : (K → V → Bool) → Map K V → Map K V
  retain p [] = []
  retain p ((k, v) ∷ m) = if p k v then (k, v) ∷ retain p m else retain p m

  pub length-retain : (p : K → V → Bool) (m : Map K V) → length (retain p m) ≤ length m
  unfolding retain
  length-retain p [] = omega arith
  length-retain p ((k, v) ∷ m) = ground (arith, length-retain p m)

pub =?_refl {ℓ} : {K : Type ℓ} ⦃e : Eq K⦄ (k : K) → (k =? k) ≡ true
=?_refl ⦃e⦄ k = (e.beq_iff k k).1 refl

-- A filter on the value that was found.
pub lookup-insert_same {ℓ κ} :
    {K : Type ℓ} {V : Type κ} ⦃e : Eq K⦄ (k : K) (v : V) (m : Map K V)
    → lookup k (insert k v m) ≡ some v
lookup-insert_same k v m = lookup-insert k k v m ∙ rw (=?_refl k) refl

abbrev pub keep_if {ℓ κ} : {K : Type ℓ} {V : Type κ} → (K → V → Bool) → K → Option V → Option V
keep_if p k none = none
keep_if p k (some v) = if p k v then some v else none

module _ {ℓ κ} {K : Type ℓ} {V : Type κ} ⦃e : Eq K⦄ where
  -- One entry for a key, as the collections of the source have it.
  abbrev pub Distinct : Map K V → Type κ
  Distinct [] = Unit
  Distinct ((k, v) ∷ m) = (lookup k m ≡ none) × Distinct m

  pub lookup-retain-none :
      (p : K → V → Bool) (k : K) (m : Map K V) → lookup k m ≡ none → lookup k (retain p m) ≡ none
  unfolding lookup retain
  lookup-retain-none p k [] h = refl
  lookup-retain-none p k ((j, w) ∷ m) h = ground (arith, lookup-retain-none p k m)

  pub lookup-retain :
      (p : K → V → Bool) (k : K) (m : Map K V)
      → Distinct m
      → lookup k (retain p m) ≡ keep_if p k (lookup k m)
  unfolding lookup retain
  lookup-retain p k [] d = refl
  lookup-retain p k ((j, w) ∷ m) d = elim (Bool-cases (j =? k)) [
    | inl hit ↦
        let same : j ≡ k = (e.beq_iff j k).0 hit in
        let gone : lookup k (retain p m) ≡ none =
          lookup-retain-none p k m (subst (λ x. lookup x m ≡ none) same d.0) in
        ground (arith, ap (λ x. p x w) same)
    | inr miss ↦ ground (arith, lookup-retain p k m d.1)
  ]

  pub retain-Distinct : (p : K → V → Bool) (m : Map K V) → Distinct m → Distinct (retain p m)
  unfolding retain
  retain-Distinct p [] d = tt
  retain-Distinct p ((k, v) ∷ m) d =
      ground (arith, retain-Distinct p m d.1, lookup-retain-none p k m d.0)

  pub insert-Distinct : (k : K) (v : V) (m : Map K V) → Distinct m → Distinct (insert k v m)
  unfolding insert
  insert-Distinct k v [] d = (unfold lookup in refl, tt)
  insert-Distinct k v ((j, w) ∷ m) d = elim (Bool-cases (j =? k)) [
    | inl hit ↦
        let same : j ≡ k = (e.beq_iff j k).0 hit in
        rw hit (subst (λ x. lookup x m ≡ none) same d.0, d.1)
    | inr miss ↦ rw miss (
      (let other : (k =? j) ≡ false = ground (arith, e.beq_iff j k, e.beq_iff k j) in
          rw (lookup-insert k j v m, other) d.0),
      insert-Distinct k v m d.1,
    )
  ]
