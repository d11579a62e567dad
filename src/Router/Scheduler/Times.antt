-- ===== src/Router/Scheduler/Times.antt =====
-- The earliest of some times, as `next_wake_ms` of crates/babel-router/src/output.rs computes it.
use native.Mathlib.Decide.{dec_le}
use babel_rs.Base.{
  ℕ, min, ◌⊎◌, ◌≤◌, ◌≡◌, refl, sym, subst, ap, Option, none, some, List, [], ◌∷◌, ◌++◌, arith, inl,
  inr, All, All-append,
}
use babel_rs.Router.Scheduler.Ready.{earlier}

-- A time is one of some times.
abbrev pub IsAmong : ℕ → List ℕ → Type 0
IsAmong t [] = ⊥
IsAmong t (u ∷ us) = (t ≡ u) ⊎ IsAmong t us

-- The earliest of some times, if there are any.
pub data IsEarliest : List ℕ → Option ℕ → Type 0 where
  no_time : IsEarliest [] none
  first_time : {ts : List ℕ} {t : ℕ} → IsAmong t ts → All (λ u. t ≤ u) ts → IsEarliest ts (some t)

pub All-weaken : (t u : ℕ) (ts : List ℕ) → t ≤ u → All (λ v. u ≤ v) ts → All (λ v. t ≤ v) ts
All-weaken t u [] le h = tt
All-weaken t u (v ∷ vs) le h = (omega (arith, h.0), All-weaken t u vs le h.1)

pub earlier-IsEarliest :
    (o : Option ℕ) (t : ℕ) (ts : List ℕ) → IsEarliest ts o → IsEarliest (t ∷ ts) (earlier o t)
earlier-IsEarliest none t _ no_time = first_time (inl refl) (omega arith, tt)
earlier-IsEarliest (some u) t ts (first_time a h) = elim (dec_le u t) [
  | yes p ↦
      let e : min u t ≡ u = omega arith in
      subst (λ v. IsEarliest (t ∷ ts) (some v)) (sym e) (first_time (inr a) (p, h))
  | no p ↦
      let e : min u t ≡ t = omega arith in
      subst (λ v. IsEarliest (t ∷ ts) (some v)) (sym e)
        (first_time (inl refl) (omega arith, All-weaken t u ts (omega arith) h))
]

IsAmong-front : (t : ℕ) (ts us : List ℕ) → IsAmong t ts → IsAmong t (ts ++ us)
IsAmong-front t [] us a = elim a [ ]
IsAmong-front t (v ∷ vs) us (inl e) = inl e
IsAmong-front t (v ∷ vs) us (inr a) = inr (IsAmong-front t vs us a)

IsAmong-back : (t : ℕ) (ts us : List ℕ) → IsAmong t us → IsAmong t (ts ++ us)
IsAmong-back t [] us a = a
IsAmong-back t (v ∷ vs) us a = inr (IsAmong-back t vs us a)

-- The earlier of the earliest of two lists is the earliest of both.
pub earlier-IsEarliest_both :
    (o : Option ℕ) (t : ℕ) (ts us : List ℕ)
    → IsEarliest ts o
    → IsEarliest us (some t)
    → IsEarliest (ts ++ us) (earlier o t)
earlier-IsEarliest_both none t _ us no_time q = q
earlier-IsEarliest_both (some u) t ts us (first_time a h) (first_time b k) = elim (dec_le u t) [
  | yes p ↦
      let e : min u t ≡ u = omega arith in
      subst (λ v. IsEarliest (ts ++ us) (some v)) (sym e)
        (first_time (IsAmong-front u ts us a) (All-append _ ts us h (All-weaken u t us p k)))
  | no p ↦
      let e : min u t ≡ t = omega arith in
      subst (λ v. IsEarliest (ts ++ us) (some v)) (sym e)
        (first_time (IsAmong-back t ts us b)
          (All-append _ ts us (All-weaken t u ts (omega arith) h) k))
]

pub append_nil : (ts : List ℕ) → ts ++ [] ≡ ts
append_nil [] = refl
append_nil (t ∷ ts) = ap (λ us. t ∷ us) (append_nil ts)
