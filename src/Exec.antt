-- ===== src/Exec.antt =====
-- Code that changes the world and may throw: what was done before a throw stays done, so the state
-- comes back beside the error too.
use mathlib.Core.Path.{◌≡◌, refl, subst}
use embr.Base.{Result, ok, err, Error, Bool, true, false, if◌then◌else◌}

abbrev pub Exec {ℓ} : Type ℓ → Type ℓ → Type ℓ
Exec S A = S → Result A × S

module _ {ℓ} {S A B : Type ℓ} where
  abbrev pub continue : Result A × S → (A → Exec S B) → Result B × S
  continue (ok a, s) f = f a s
  continue (err e, s) f = (err e, s)

  infixl 5 ◌>>=◌ ◌>>◌
  abbrev pub ◌>>=◌ : Exec S A → (A → Exec S B) → Exec S B
  ◌>>=◌ m f s = continue (m s) f

  abbrev pub ◌>>◌ : Exec S A → Exec S B → Exec S B
  ◌>>◌ m n s = continue (m s) (λ _. n)

  -- The step is taken that an equation describes.
  pub bind-ok :
      (m : Exec S A) (f : A → Exec S B) {s t : S} {a : A} → m s ≡ (ok a, t) → (m >>= f) s ≡ f a t
  bind-ok m f e = rw e

  pub bind-err :
      (m : Exec S A) (f : A → Exec S B) {s t : S} {x : Error}
      → m s ≡ (err x, t)
      → (m >>= f) s ≡ (err x, t)
  bind-err m f e = rw e

  -- Inversion of a successful bind.
  pub bind-eq-ok :
      (m : Exec S A) (f : A → Exec S B) (s : S) {t : S} {b : B}
      → (m >>= f) s ≡ (ok b, t)
      → (a : A) × (u : S) × (m s ≡ (ok a, u)) × (f a u ≡ (ok b, t))
  bind-eq-ok m f s {t} {b} e = split (m s) refl e
    where
      split :
          (r : Result A × S)
          → m s ≡ r
          → continue r f ≡ (ok b, t)
          → (a : A) × (u : S) × (m s ≡ (ok a, u)) × (f a u ≡ (ok b, t))
      split (ok a, u) d h = (a, u, d, h)
      split (err x, u) d h = cc

module _ {ℓ} {S A : Type ℓ} where
  abbrev pub pure : A → Exec S A
  pure a s = (ok a, s)

  abbrev pub throw : Error → Exec S A
  throw e s = (err e, s)

  -- A pure computation that may throw.
  abbrev pub lift : Result A → Exec S A
  lift r s = (r, s)

abbrev pub require : {S : Type 0} → Bool → Error → Exec S (Unit {0})
require true e s = (ok tt, s)
require false e s = (err e, s)

-- Whatever `m` returns has the property, from every state.
pub record Ensures {S A : Type 0} (P : A → Type 0) (m : Exec S A) : Type 0 where
  pub at : (s : S) {t : S} {a : A} → m s ≡ (ok a, t) → P a

module _ {S A B : Type 0} {P : B → Type 0} where
  pub Ensures-bind :
      (Q : A → Type 0) (m : Exec S A) (f : A → Exec S B)
      → Ensures Q m
      → ((a : A) → Q a → Ensures P (f a))
      → Ensures P (m >>= f)
  Ensures-bind Q m f h k = record {
    at = λ s e. let (a, u, d, g) = bind-eq-ok m f s e in (k a (h.at s d)).at u g;
  }

  -- What follows a pure computation may use what it returned.
  pub Ensures-bind-lift :
      (r : Result A) (f : A → Exec S B)
      → ((a : A) → r ≡ ok a → Ensures P (f a))
      → Ensures P (lift r >>= f)
  Ensures-bind-lift (ok a) f h = h a refl
  Ensures-bind-lift (err x) f h = record { at = λ s e. absurd (cc) }

module _ {S A : Type 0} {P : A → Type 0} where
  pub Ensures-pure : (a : A) → P a → Ensures {S = S} P (pure a)
  Ensures-pure a h = record { at = λ s e. subst P (returned e) h }
    where
      returned : {s t : S} {b : A} → pure a s ≡ (ok b, t) → a ≡ b
      returned e = cc

  pub Ensures-if :
      (b : Bool) (m n : Exec S A)
      → (b ≡ true → Ensures P m)
      → (b ≡ false → Ensures P n)
      → Ensures P (if b then m else n)
  Ensures-if true m n h k = h refl
  Ensures-if false m n h k = k refl
