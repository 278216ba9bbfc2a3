-- ===== src/Prelude/Digits.antt =====
-- Numbers in decimal: the verb %d of fmt.Sprintf on a natural number, and its reading.
use Prim.Native.Nat.{ℕ, zero, suc, ◌+◌, ◌-◌, ◌*◌, ◌/◌, ◌%◌, ◌<◌}
use mathlib.Core.Path.{◌≡◌, refl, ◌∙◌}
use mathlib.Core.Logic.{inl, inr}
use mathlib.Core.List.{[], ◌∷◌, ◌++◌}
use native.Mathlib.Omega.{arith}
use anime_portable.Prelude.Tests.{if◌then◌else◌, ltb, Bool-cases}
use anime_portable.Prelude.Lists.{All, All-append}
use anime_portable.Prelude.Text.{Str}

-- The digits of a number; the fuel is more than their count.
digits_from : ℕ → ℕ → Str
digits_from zero n = []
digits_from (suc fuel) n =
    let front = digits_from fuel (n / 10) in
    if ltb n 10 then (0x30 + n) ∷ [] else front ++ ((0x30 + n % 10) ∷ [])

-- `%d`
unfoldable pub digits : ℕ → Str
unfolding digits_from
digits n = digits_from (suc n) n

-- The number that digits stand for, after a number that is read already.
unfoldable pub decimal : ℕ → Str → ℕ
decimal n [] = n
decimal n (x ∷ s) = decimal (10 * n + (x - 0x30)) s

decimal-append : (n : ℕ) (s t : Str) → decimal n (s ++ t) ≡ decimal (decimal n s) t
unfolding decimal
decimal-append n [] t = refl
decimal-append n (x ∷ s) t = decimal-append (10 * n + (x - 0x30)) s t

decimal-digits_from : (fuel n : ℕ) → n < fuel → decimal 0 (digits_from fuel n) ≡ n
unfolding digits_from decimal
decimal-digits_from zero n h = absurd (omega arith)
decimal-digits_from (suc fuel) n h = elim (Bool-cases (ltb n 10)) [
  | inl small ↦ rw small (omega arith)
  | inr large ↦ rw large (
      decimal-append 0 (digits_from fuel (n / 10)) ((0x30 + n % 10) ∷ [])
      ∙ last (decimal 0 (digits_from fuel (n / 10)))
          (decimal-digits_from fuel (n / 10) (ground (arith, large))))
]
  where
    last : (m : ℕ) → m ≡ n / 10 → 10 * m + ((0x30 + n % 10) - 0x30) ≡ n
    last m e = omega arith

pub decimal-digits : (n : ℕ) → decimal 0 (digits n) ≡ n
unfolding digits
decimal-digits n = decimal-digits_from (suc n) n (omega arith)

digits_from-All : (fuel n : ℕ) → All (λ x. x < 0x3A) (digits_from fuel n)
unfolding digits_from
digits_from-All zero n = tt
digits_from-All (suc fuel) n = elim (Bool-cases (ltb n 10)) [
  | inl small ↦ rw small (ground (arith, small), tt)
  | inr large ↦ rw large (
      All-append (λ x. x < 0x3A) (digits_from fuel (n / 10)) ((0x30 + n % 10) ∷ [])
        (digits_from-All fuel (n / 10)) (omega arith, tt))
]

-- The digits come before the colon among the bytes.
pub digits-All : (n : ℕ) → All (λ x. x < 0x3A) (digits n)
unfolding digits
digits-All n = digits_from-All (suc n) n
