-- ===== src/Effects.antt =====
-- Calls that change the world and may fail: a Go function with an error result.
use anime_portable.Prelude.{◌≡◌, refl, Bool, true, false, Option, none, some, ◌⊎◌, inr, inl, ap}
use anime_portable.Models.{Err, not_found}

pub data Result {ℓ} (A : Type ℓ) : Type ℓ where
  ok : A → Result A
  failed : Err → Result A

abbrev pub Eff : Type 0 → Type 0 → Type 0
Eff W A = W → Result A × W

module _ {W A : Type 0} where
  abbrev pub pure : A → Eff W A
  pure a w = (ok a, w)

  abbrev pub raise : Err → Eff W A
  raise e w = (failed e, w)

module _ {W A B : Type 0} where
  abbrev pub continue : Result A → (A → Eff W B) → Eff W B
  continue (ok a) f w = f a w
  continue (failed e) f w = (failed e, w)

  infixl 5 ◌>>=◌ ◌>>◌
  abbrev pub ◌>>=◌ : Eff W A → (A → Eff W B) → Eff W B
  ◌>>=◌ m f w = let (r, w') = m w in continue r f w'

  abbrev pub ◌>>◌ : Eff W A → Eff W B → Eff W B
  m >> k = m >>= λ _. k

module _ {W : Type 0} where
  -- `if !condition { return err }`
  abbrev pub guard : Bool → Err → Eff W (Unit {0})
  guard true e = pure tt
  guard false e = raise e

  -- `if err := ctx.Err(); err != nil { return err }`
  abbrev pub check : (W → Option Err × W) → Eff W (Unit {0})
  check ctx_err w = let (e, w') = ctx_err w in checked e w'
    where
      checked : Option Err → Eff W (Unit {0})
      checked none = pure tt
      checked (some e) = raise e

abbrev found_result {ℓ} : {A : Type ℓ} → Result A → Result (Option A)
found_result (ok a) = ok (some a)
found_result (failed not_found) = ok none
found_result (failed e) = failed e

module _ {W A : Type 0} where
  -- Turns `ErrNotFound` into `none`.
  abbrev pub found : Eff W A → Eff W (Option A)
  found m w = let (r, w') = m w in (found_result r, w')

-- What a call without effect returns.
pub pure-eq-ok : {W A : Type 0} {a b : A} {w v : W} → pure a w ≡ (ok b, v) → a ≡ b
pure-eq-ok h = cc

-- Inversion of a successful bind.
pub >>=-eq-ok :
    {W A B : Type 0} (m : Eff W A) (f : A → Eff W B) (w : W) {b : B} {w'' : W}
    → (m >>= f) w ≡ (ok b, w'')
    → (a : A) × (w' : W) × (m w ≡ (ok a, w')) × (f a w' ≡ (ok b, w''))
>>=-eq-ok {W} {A} {B} m f w {b} {w''} h = invert (m w) refl h
  where
    invert :
        (p : Result A × W)
        → m w ≡ p
        → continue p.0 f p.1 ≡ (ok b, w'')
        → (a : A) × (w' : W) × (m w ≡ (ok a, w')) × (f a w' ≡ (ok b, w''))
    invert (ok a, w') e k = (a, w', e, k)
    invert (failed x, w') e k = cc

-- Inversion of a successful lookup.
pub found-eq-ok :
    {W A : Type 0} (m : Eff W A) (w : W) {o : Option A} {w' : W}
    → found m w ≡ (ok o, w')
    → (o ≡ none) ⊎ ((a : A) × (o ≡ some a) × (m w ≡ (ok a, w')))
found-eq-ok {W} {A} m w {o} {w'} h =
    invert (m w) refl (ap (λ (p : Result (Option A) × W). p.0) h)
      (ap (λ (p : Result (Option A) × W). p.1) h)
  where
    invert :
        (p : Result A × W)
        → m w ≡ p
        → found_result p.0 ≡ ok o
        → p.1 ≡ w'
        → (o ≡ none) ⊎ ((a : A) × (o ≡ some a) × (m w ≡ (ok a, w')))
    invert (ok a, v) e k l = inr (a, cc, cc)
    invert (failed not_found, v) e k l = inl (cc)
    invert (failed x, v) e k l = cc
