-- ===== src/Prelude/Pick.antt =====
-- One element of a list, taken out of it: what an interleaving does next.
use Prim.Native.Nat.{ℕ, zero, suc, ◌+◌}
use mathlib.Core.Path.{◌≡◌, ap, ◌∙◌, subst}
use mathlib.Core.List.{List, [], ◌∷◌}
use mathlib.Core.Option.{Option, none, some}
use native.Mathlib.Omega.{arith}
use anime_portable.Prelude.Lists.{All}

module _ {A : Type 0} where
  abbrev pub put_back : A → Option (A × List A) → Option (A × List A)
  put_back x none = none
  put_back x (some (picked, rest)) = some (picked, x ∷ rest)

  -- The element at an index and the others.
  abbrev pub pick : ℕ → List A → Option (A × List A)
  pick i [] = none
  pick zero (x ∷ xs) = some (x, xs)
  pick (suc i) (x ∷ xs) = put_back x (pick i xs)

  -- A sum over the elements.
  abbrev pub total : (A → ℕ) → List A → ℕ
  total f [] = 0
  total f (x ∷ xs) = f x + total f xs

module _ {A : Type 0} (picked : A) (rest : List A) where
  put_back-eq :
      (x : A) (o : Option (A × List A))
      → put_back x o ≡ some (picked, rest)
      → (others : List A) × (o ≡ some (picked, others)) × (x ∷ others ≡ rest)
  put_back-eq x none e = cc
  put_back-eq x (some (p, others)) e = (others, cc, cc)

first-eq :
    {A : Type 0} (x : A) (xs : List A) (picked : A) (rest : List A)
    → pick zero (x ∷ xs) ≡ some (picked, rest)
    → (x ≡ picked) × (xs ≡ rest)
first-eq x xs picked rest e = (cc, cc)

pub pick-All :
    {A : Type 0} (P : A → Type 0) (i : ℕ) (xs : List A) (picked : A) (rest : List A)
    → pick i xs ≡ some (picked, rest)
    → All P xs
    → P picked × All P rest
pick-All P i [] picked rest e h = cc
pick-All P zero (x ∷ xs) picked rest e h =
    let (same, others) = first-eq x xs picked rest e in (subst P same h.0, subst (All P) others h.1)
pick-All P (suc i) (x ∷ xs) picked rest e h =
    let (others, later, whole) = put_back-eq picked rest x (pick i xs) e in
    let (found, kept) = pick-All P i xs picked others later h.1 in
    (found, subst (All P) whole (h.0, kept))

pub pick-total :
    {A : Type 0} (f : A → ℕ) (i : ℕ) (xs : List A) (picked : A) (rest : List A)
    → pick i xs ≡ some (picked, rest)
    → total f xs ≡ f picked + total f rest
pick-total f i [] picked rest e = cc
pick-total f zero (x ∷ xs) picked rest e =
    let (same, others) = first-eq x xs picked rest e in
    ap (λ y. f y + total f xs) same ∙ ap (λ l. f picked + total f l) others
pick-total f (suc i) (x ∷ xs) picked rest e =
    let (others, later, whole) = put_back-eq picked rest x (pick i xs) e in
    omega (arith, pick-total f i xs picked others later, ap (total f) whole)
