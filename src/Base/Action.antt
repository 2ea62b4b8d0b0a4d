-- ===== src/Base/Action.antt =====
-- Code that reads and changes a state and may raise: a state goes in, and comes out beside the value
-- or the exception.
use jebao_flow_engine.Base.Result.{Result, Error, ok, err}
use mathlib.Core.Bool.{Bool, true, false}
use mathlib.Core.Path.{◌≡◌, refl}

abbrev pub Action : Type 0 → Type 0 → Type 0
Action S A = S → Result A × S

module _ {S : Type 0} where
  abbrev pub continue : {A B : Type 0} → Result A → (A → Action S B) → Action S B
  continue (ok a) f s = f a s
  continue (err e) f s = (err e, s)

  infixl 10 ◌>>=◌ ◌>>◌
  abbrev pub ◌>>=◌ : {A B : Type 0} → Action S A → (A → Action S B) → Action S B
  ◌>>=◌ m f s = continue (m s).0 f (m s).1

  abbrev pub ◌>>◌ : {B : Type 0} → Action S (Unit {0}) → Action S B → Action S B
  ◌>>◌ m k s = continue (m s).0 (λ _. k) (m s).1

  abbrev pub lift : {A : Type 0} → Result A → Action S A
  lift r s = (r, s)

  abbrev pub check : Bool → Error → Action S (Unit {0})
  check true e s = (ok tt, s)
  check false e s = (err e, s)

  -- the value of the state under a function, and a change of the state
  abbrev pub gets : {A : Type 0} → (S → A) → Action S A
  gets f s = (ok (f s), s)

  abbrev pub modify : (S → S) → Action S (Unit {0})
  modify f s = (ok tt, f s)

  continue-eq-ok :
      {A B : Type 0} (r : Result A) (f : A → Action S B) (s : S) {b : B} {t : S}
      → continue r f s ≡ (ok b, t)
      → (a : A) × (r ≡ ok a) × (f a s ≡ (ok b, t))
  continue-eq-ok (ok a) f s h = (a, refl, h)
  continue-eq-ok (err e) f s h = cc

  -- What a successful block has done, step by step.
  pub >>=-eq-ok :
      {A B : Type 0} (m : Action S A) (f : A → Action S B) (s : S) {b : B} {t : S}
      → (m >>= f) s ≡ (ok b, t)
      → (a : A) × (u : S) × (m s ≡ (ok a, u)) × (f a u ≡ (ok b, t))
  >>=-eq-ok m f s h =
      let (a, done, rest) = continue-eq-ok (m s).0 f (m s).1 h in
      (a, (m s).1, λ i. (done i, (m s).1), rest)

  pub check-eq-ok :
      {B : Type 0} (test : Bool) (e : Error) (k : Action S B) (s : S) {b : B} {t : S}
      → (check test e >> k) s ≡ (ok b, t)
      → (test ≡ true) × (k s ≡ (ok b, t))
  check-eq-ok true e k s h = (refl, h)
  check-eq-ok false e k s h = cc

  -- A relation between the states before and after, which every step keeps, a block keeps.
  abbrev pub Keeps : (S → S → Type 0) → {A : Type 0} → Action S A → Type 0
  Keeps R m = (s : S) → R s (m s).1

  continue-Keeps :
      (R : S → S → Type 0) {A B : Type 0} (r : Result A) (f : A → Action S B) (s t : S)
      → ((u v w : S) → R u v → R v w → R u w)
      → R s t
      → ((a : A) → Keeps R (f a))
      → R s (continue r f t).1
  continue-Keeps R (ok a) f s t trans h hf = trans s t _ h (hf a t)
  continue-Keeps R (err e) f s t trans h hf = h

  pub >>=-Keeps :
      (R : S → S → Type 0) {A B : Type 0} (m : Action S A) (f : A → Action S B)
      → ((s t u : S) → R s t → R t u → R s u)
      → Keeps R m
      → ((a : A) → Keeps R (f a))
      → Keeps R (m >>= f)
  >>=-Keeps R m f trans hm hf s = continue-Keeps R (m s).0 f s (m s).1 trans (hm s) hf
