-- ===== src/Wire/Faults.antt =====
-- Results that are a value, or have faults of one kind only.
use babel_rs.Base.{◌≡◌, refl, subst, Bool, true, false, Option, none, some, if◌then◌else◌}
use babel_rs.Base.Results.{Result, ok, err, ◌>>=◌}
use babel_rs.Wire.{WireError}

-- A result that is a value, or has only that kind of fault.
pub data FaultsIn {ℓ} {A : Type ℓ} (P : WireError → Type 0) : Result WireError A → Type ℓ where
  fine : (a : A) → FaultsIn P (ok a)
  fault : (e : WireError) → P e → FaultsIn P (err e)

module _ {ℓ} {A : Type ℓ} {P : WireError → Type 0} where
  pub FaultsIn->>= {κ} :
      {B : Type κ} (r : Result WireError B) (k : B → Result WireError A)
      → FaultsIn P r
      → ((b : B) → FaultsIn P (k b))
      → FaultsIn P (r >>= k)
  FaultsIn->>= (ok b) k h hk = hk b
  FaultsIn->>= {B = B} (err e) k h hk = keep e h
    where
      keep : (e : WireError) → FaultsIn {A = B} P (err e) → FaultsIn {A = A} P (err e)
      keep e (fault _ h) = fault e h

  pub FaultsIn-if :
      (b : Bool) (x y : Result WireError A)
      → FaultsIn P x
      → FaultsIn P y
      → FaultsIn P (if b then x else y)
  FaultsIn-if true x y hx hy = hx
  FaultsIn-if false x y hx hy = hy

  pub FaultsIn-option {κ} :
      {B : Type κ} (o : Option B) (x : Result WireError A) (k : B → Result WireError A)
      → FaultsIn P x
      → ((b : B) → FaultsIn P (k b))
      → FaultsIn P (elim o [ none ↦ x | some b ↦ k b ])
  FaultsIn-option none x k hx hk = hx
  FaultsIn-option (some b) x k hx hk = hk b

module _ {A : Type 0} {P : WireError → Type 0} where
  pub fault_of : {r : Result WireError A} {e : WireError} → FaultsIn P r → r ≡ err e → P e
  fault_of (fine a) h = cc
  fault_of {e = e} (fault e' p) h = let same : e' ≡ e = cc in subst P same p

  pub FaultsIn-weaken :
      {Q : WireError → Type 0} {r : Result WireError A}
      → ((e : WireError) → P e → Q e)
      → FaultsIn P r
      → FaultsIn Q r
  FaultsIn-weaken sub (fine a) = fine a
  FaultsIn-weaken sub (fault e p) = fault e (sub e p)

  pub FaultsIn-if-known :
      (b : Bool) (x y : Result WireError A)
      → (b ≡ true → FaultsIn P x)
      → (b ≡ false → FaultsIn P y)
      → FaultsIn P (if b then x else y)
  FaultsIn-if-known true x y hx hy = hx refl
  FaultsIn-if-known false x y hx hy = hy refl

  -- A branch on an option, or on a computed value, that is remembered.
  pub FaultsIn-option_known {κ} :
      {B : Type κ} (o : Option B) (x : Result WireError A) (k : B → Result WireError A)
      → (o ≡ none → FaultsIn P x)
      → ((b : B) → o ≡ some b → FaultsIn P (k b))
      → FaultsIn P (elim o [ none ↦ x | some b ↦ k b ])
  FaultsIn-option_known none x k hx hk = hx refl
  FaultsIn-option_known (some b) x k hx hk = hk b refl

  pub FaultsIn->>=_known :
      {B : Type 0} {Q : WireError → Type 0} (r : Result WireError B) (k : B → Result WireError A)
      → FaultsIn Q r
      → ((e : WireError) → Q e → P e)
      → ((b : B) → r ≡ ok b → FaultsIn P (k b))
      → FaultsIn P (r >>= k)
  FaultsIn->>=_known _ k (fine b) sub hk = hk b refl
  FaultsIn->>=_known _ k (fault e q) sub hk = fault e (sub e q)
