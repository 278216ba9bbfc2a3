-- ===== src/Prelude/Sort.antt =====
-- A stable sort by insertion and what it keeps: sort.SliceStable where the order leaves a choice, and
-- sort.Slice where it leaves none.
use Prim.Native.Nat.{ℕ, zero, suc}
use mathlib.Core.Path.{◌≡◌, refl, subst, sym}
use mathlib.Core.Logic.{◌⊎◌, inl, inr}
use mathlib.Core.Bool.{Bool, true, false}
use mathlib.Core.List.{List, [], ◌∷◌, map}
use anime_portable.Prelude.Tests.{if◌then◌else◌, Bool-cases}
use anime_portable.Prelude.Lists.{In, here, there, All, All-map, take}

module _ {A : Type 0} where
  unfoldable pub insert_by : (A → A → Bool) → A → List A → List A
  insert_by before a [] = a ∷ []
  insert_by before a (x ∷ xs) =
      let rest = insert_by before a xs in if before x a then x ∷ rest else a ∷ x ∷ xs

  unfoldable pub sort_by : (A → A → Bool) → List A → List A
  sort_by before [] = []
  sort_by before (x ∷ xs) = insert_by before x (sort_by before xs)

  -- A relation from every element to the later ones.
  abbrev pub Descends : (A → A → Type 0) → List A → Type 0
  Descends R [] = Unit
  Descends R (x ∷ xs) = All (R x) xs × Descends R xs

  pub In-All : (P : A → Type 0) {x : A} {xs : List A} → In x xs → All P xs → P x
  In-All P here h = h.0
  In-All P (there i) h = In-All P i h.1

  -- An element of a list that a test has put one more in front of.
  pub In-if :
      (b : Bool) (x : A) (xs : List A) {a : A}
      → In a (if b then x ∷ xs else xs)
      → ((b ≡ true) × (a ≡ x)) ⊎ In a xs
  In-if true x xs here = inl (refl, refl)
  In-if true x xs (there i) = inr i
  In-if false x xs i = inr i

  All-of_In : (P : A → Type 0) (xs : List A) → ((x : A) → In x xs → P x) → All P xs
  All-of_In P [] h = tt
  All-of_In P (x ∷ xs) h = (h x here, All-of_In P xs (λ y i. h y (there i)))

module _ {A : Type 0} (before : A → A → Bool) where
  -- An insertion by its two cases.
  insert_by-cases :
      (a y : A) (ys : List A)
      → (insert_by before a (y ∷ ys) ≡ y ∷ insert_by before a ys)
        ⊎ (insert_by before a (y ∷ ys) ≡ a ∷ y ∷ ys)
  unfolding insert_by
  insert_by-cases a y ys = elim (Bool-cases (before y a)) [
    | inl b ↦ inl (
        subst
          (λ c. (if c then y ∷ insert_by before a ys else a ∷ y ∷ ys) ≡ y ∷ insert_by before a ys)
          (sym b) refl)
    | inr b ↦ inr (
        subst (λ c. (if c then y ∷ insert_by before a ys else a ∷ y ∷ ys) ≡ a ∷ y ∷ ys) (sym b)
          refl)
  ]

  insert_by-All :
      (P : A → Type 0) (a : A) (xs : List A) → P a → All P xs → All P (insert_by before a xs)
  unfolding insert_by
  insert_by-All P a [] p h = (p, tt)
  insert_by-All P a (y ∷ ys) p h = elim (insert_by-cases a y ys) [
    | inl e ↦ subst (All P) (sym e) (h.0, insert_by-All P a ys p h.1)
    | inr e ↦ subst (All P) (sym e) (p, h)
  ]

  -- What holds of every element holds after the sort.
  pub sort_by-All : (P : A → Type 0) (xs : List A) → All P xs → All P (sort_by before xs)
  unfolding sort_by
  sort_by-All P [] h = tt
  sort_by-All P (x ∷ xs) h = insert_by-All P x (sort_by before xs) h.0 (sort_by-All P xs h.1)

  In-insert_by_new : (a : A) (xs : List A) → In a (insert_by before a xs)
  unfolding insert_by
  In-insert_by_new a [] = here
  In-insert_by_new a (y ∷ ys) = elim (insert_by-cases a y ys) [
    | inl e ↦ subst (In a) (sym e) (there (In-insert_by_new a ys))
    | inr e ↦ subst (In a) (sym e) here
  ]

  In-insert_by_old : (a : A) (xs : List A) (x : A) → In x xs → In x (insert_by before a xs)
  In-insert_by_old a [] x i = elim i [ ]
  In-insert_by_old a (_ ∷ ys) x here = elim (insert_by-cases a x ys) [
    | inl e ↦ subst (In x) (sym e) here
    | inr e ↦ subst (In x) (sym e) (there here)
  ]
  In-insert_by_old a (y ∷ ys) x (there i) = elim (insert_by-cases a y ys) [
    | inl e ↦ subst (In x) (sym e) (there (In-insert_by_old a ys x i))
    | inr e ↦ subst (In x) (sym e) (there (there i))
  ]

  -- The sort loses nothing.
  pub In-sort_by : (xs : List A) (x : A) → In x xs → In x (sort_by before xs)
  unfolding sort_by
  In-sort_by [] x i = elim i [ ]
  In-sort_by (_ ∷ xs) x here = In-insert_by_new x (sort_by before xs)
  In-sort_by (y ∷ xs) x (there i) = In-insert_by_old y (sort_by before xs) x (In-sort_by xs x i)

  pub sort_by-In : (xs : List A) (x : A) → In x (sort_by before xs) → In x xs
  sort_by-In xs x i =
      In-All (λ y. In y xs) i
        (sort_by-All (λ y. In y xs) xs (All-of_In (λ y. In y xs) xs (λ y j. j)))

  module _ (R : A → A → Type 0) (R_trans : (a b c : A) → R a b → R b c → R a c)
      (R_before : (a b : A) → before a b ≡ true → R a b)
      (R_not_before : (a b : A) → before b a ≡ false → R a b) where
    insert_by-Descends : (a : A) (xs : List A) → Descends R xs → Descends R (insert_by before a xs)
    unfolding insert_by
    insert_by-Descends a [] d = (tt, tt)
    insert_by-Descends a (y ∷ ys) d = elim (Bool-cases (before y a)) [
      | inl b ↦
          subst (λ c. Descends R (if c then y ∷ insert_by before a ys else a ∷ y ∷ ys)) (sym b)
            (insert_by-All (R y) a ys (R_before y a b) d.0, insert_by-Descends a ys d.1)
      | inr b ↦
          subst (λ c. Descends R (if c then y ∷ insert_by before a ys else a ∷ y ∷ ys)) (sym b)
            ((R_not_before a y b, All-map (λ z r. R_trans a y z (R_not_before a y b) r) ys d.0), d)
    ]

    -- The sort puts the elements in a line of any transitive relation that its order implies.
    pub sort_by-Descends : (xs : List A) → Descends R (sort_by before xs)
    unfolding sort_by
    sort_by-Descends [] = tt
    sort_by-Descends (x ∷ xs) = insert_by-Descends x (sort_by before xs) (sort_by-Descends xs)

-- What a map and a prefix keep.
pub All-of_map :
    {A B : Type 0} (P : A → Type 0) (Q : B → Type 0) (f : A → B) (xs : List A)
    → ((x : A) → P x → Q (f x))
    → All P xs
    → All Q (map f xs)
All-of_map P Q f [] step h = tt
All-of_map P Q f (x ∷ xs) step h = (step x h.0, All-of_map P Q f xs step h.1)

pub take-All {ℓ} :
    {A : Type ℓ} (P : A → Type 0) (n : ℕ) (xs : List A) → All P xs → All P (take n xs)
take-All P zero xs h = tt
take-All P (suc n) [] h = tt
take-All P (suc n) (x ∷ xs) h = (h.0, take-All P n xs h.1)

pub take-Descends :
    {A : Type 0} (R : A → A → Type 0) (n : ℕ) (xs : List A) → Descends R xs → Descends R (take n xs)
take-Descends R zero xs h = tt
take-Descends R (suc n) [] h = tt
take-Descends R (suc n) (x ∷ xs) h = (take-All (R x) n xs h.0, take-Descends R n xs h.1)
