-- ===== src/Base/Effect.antt =====
-- A Go function that returns `(A, error)`, and one that also acts on a world `W`: what was done
-- before an error stays done.
use mathlib.Core.Path.{◌≡◌, refl}
use mathlib.Core.Bool.{Bool, true, false}
use mime_crypt.Base.Tests.{if◌then◌else◌}

pub data Outcome {ℓ} (E A : Type ℓ) : Type ℓ where
  ok : A → Outcome E A
  err : E → Outcome E A

pub ok_inj {ℓ} : {E A : Type ℓ} {x y : A} → ◌≡◌ {A = Outcome E A} (ok x) (ok y) → x ≡ y
ok_inj h = cc

abbrev pub Proc {ℓ} : Type ℓ → Type ℓ → Type ℓ → Type ℓ
Proc W E A = W → Outcome E A × W

module _ {ℓ} {W E : Type ℓ} where
  abbrev pub pure : {A : Type ℓ} → A → Proc W E A
  pure a w = (ok a, w)

  abbrev pub raise : {A : Type ℓ} → E → Proc W E A
  raise e w = (err e, w)

  abbrev pub lift : {A : Type ℓ} → Outcome E A → Proc W E A
  lift r w = (r, w)

  abbrev pub continue : {A B : Type ℓ} → (A → Proc W E B) → Outcome E A × W → Outcome E B × W
  continue f (ok a, w) = f a w
  continue f (err e, w) = (err e, w)

  infixl 5 ◌>>=◌ ◌>>◌
  abbrev pub ◌>>=◌ : {A B : Type ℓ} → Proc W E A → (A → Proc W E B) → Proc W E B
  ◌>>=◌ m f w = continue f (m w)

  abbrev pub ◌>>◌ : {A B : Type ℓ} → Proc W E A → Proc W E B → Proc W E B
  ◌>>◌ m n w = continue (λ _. n) (m w)

  -- The rule for one step of a `do` block: what holds of the rest when the step succeeds, and of
  -- the error when it fails, holds of the block.
  pub bind_rule {κ} :
      {A B : Type ℓ} (P : Outcome E B × W → Type κ) (m : Proc W E A) (f : A → Proc W E B) (w : W)
      → ((a : A) (v : W) → m w ≡ (ok a, v) → P (f a v))
      → ((e : E) (v : W) → m w ≡ (err e, v) → P (err e, v))
      → P ((m >>= f) w)
  bind_rule {A} {B} P m f w good bad = go (m w) refl
    where
      go : (r : Outcome E A × W) → m w ≡ r → P (continue f r)
      go (ok a, v) h = good a v h
      go (err e, v) h = bad e v h

  -- An action that is chosen by what the world holds, a value read from it, and a write to it.
  unfoldable pub within : {A : Type ℓ} → (W → Proc W E A) → Proc W E A
  within f w = f w w

  unfoldable pub gets : {A : Type ℓ} → (W → A) → Proc W E A
  gets f w = (ok (f w), w)

-- An action keeps a property of the world, whether it succeeds or fails.
pub record Keeps {ℓ} {W E A : Type ℓ} (P : W → Type ℓ) (m : Proc W E A) : Type ℓ where
  pub at : (w : W) → P w → P (m w).1

module _ {ℓ} {W E : Type ℓ} {P : W → Type ℓ} where
  pub Keeps-pure : {A : Type ℓ} (a : A) → Keeps {E = E} P (pure a)
  Keeps-pure a = record { at = λ w h. h }

  pub Keeps-raise : {A : Type ℓ} (e : E) → Keeps {A = A} P (raise e)
  Keeps-raise e = record { at = λ w h. h }

  pub Keeps-gets : {A : Type ℓ} (f : W → A) → Keeps {E = E} P (gets f)
  unfolding gets
  Keeps-gets f = record { at = λ w h. h }

  pub Keeps-within :
      {A : Type ℓ} (f : W → Proc W E A) → ((w : W) → Keeps P (f w)) → Keeps P (within f)
  unfolding within
  Keeps-within f k = record { at = λ w h. (k w).at w h }

  continue-Keeps :
      {A B : Type ℓ} (f : A → Proc W E B) (r : Outcome E A × W)
      → ((a : A) → Keeps P (f a))
      → P r.1
      → P (continue f r).1
  continue-Keeps f (ok a, v) kf h = (kf a).at v h
  continue-Keeps f (err e, v) kf h = h

  pub Keeps-bind :
      {A B : Type ℓ} (m : Proc W E A) (f : A → Proc W E B)
      → Keeps P m
      → ((a : A) → Keeps P (f a))
      → Keeps P (m >>= f)
  Keeps-bind m f km kf = record { at = λ w h. continue-Keeps f (m w) kf (km.at w h) }

  pub Keeps-then :
      {A B : Type ℓ} (m : Proc W E A) (k : Proc W E B) → Keeps P m → Keeps P k → Keeps P (m >> k)
  Keeps-then m k km kk = record { at = λ w h. continue-Keeps (λ _. k) (m w) (λ _. kk) (km.at w h) }

  pub Keeps-if :
      {A : Type ℓ} (b : Bool) (m n : Proc W E A)
      → Keeps P m
      → Keeps P n
      → Keeps P (if b then m else n)
  Keeps-if true m n km kn = km
  Keeps-if false m n km kn = kn

module _ {ℓ κ} {W E : Type ℓ} where
  -- What holds of a result with its world, after success and after an error.
  abbrev pub After : {A : Type ℓ} → (A → W → Type κ) → (E → W → Type κ) → Outcome E A × W → Type κ
  After Q X (ok a, w) = Q a w
  After Q X (err e, w) = X e w

  pub bind-After :
      {A B : Type ℓ} (R : A → W → Type κ) (Q : B → W → Type κ) (X : E → W → Type κ)
      (r : Outcome E A × W) (f : A → Proc W E B)
      → After R X r
      → ((a : A) (w : W) → R a w → After Q X (f a w))
      → After Q X (continue f r)
  bind-After R Q X (ok a, w) f h k = k a w h
  bind-After R Q X (err e, w) f h k = h

-- Where an action keeps a property, only the rest of the block is left to look at.
pub Keeps-After {ℓ} :
    {W E A : Type ℓ} (P : W → Type ℓ) (m : Proc W E A) (w : W)
    → Keeps P m
    → P w
    → After (λ _ v. P v) (λ _ v. P v) (m w)
Keeps-After {W} {E} {A} P m w k h = go (m w) (k.at w h)
  where
    go : (r : Outcome E A × W) → P r.1 → After (λ _ v. P v) (λ _ v. P v) r
    go (ok a, v) g = g
    go (err e, v) g = g

pub ruleset keeps_rules =
    (Keeps-pure, Keeps-raise, Keeps-gets, Keeps-within, Keeps-bind, Keeps-then, Keeps-if)
