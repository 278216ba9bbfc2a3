-- ===== src/Views/Items/Sorted.antt =====
-- The order of the items after merge.
use mathlib.Core.Path.{subst}
use anime_portable.Prelude.{
  if◌then◌else◌, Bool-cases, All, All-map, Str, str_eq_iff, str_lt_asymm, str_lt_total, ◌≡◌, sym,
  inl, inr, true, false, List, [], ◌∷◌, arith, not_before,
}
use anime_portable.Views.Data.{Anime}
use anime_portable.Views.Items.{before, insert, sort, merged, put_all}

module _ (lower : Str → Str) where
  -- No later item is before an earlier one.
  abbrev pub IsSorted : List Anime → Type 0
  IsSorted [] = Unit
  IsSorted (x ∷ xs) = All (λ y. before lower y x ≡ false) xs × IsSorted xs

  before_trans :
      (a b c : Anime)
      → before lower b a ≡ false
      → before lower c b ≡ false
      → before lower c a ≡ false
  unfolding before
  before_trans a b c h k =
      let l = lower a.title in
      let m = lower b.title in
      let n = lower c.title in
      ground (
        arith,
        not_before l m n,
        not_before a.id b.id c.id,
        str_eq_iff m l,
        str_eq_iff n m,
        str_eq_iff n l,
        str_lt_total l m,
        str_lt_total m n,
        str_lt_total l n,
        str_lt_asymm l m,
        str_lt_asymm m n,
        str_lt_asymm l n,
      )

  before_asymm : (a b : Anime) → before lower a b ≡ true → before lower b a ≡ false
  unfolding before
  before_asymm a b h =
      let l = lower a.title in
      let m = lower b.title in
      ground (arith, str_eq_iff l m, str_eq_iff m l, str_lt_asymm l m, str_lt_asymm a.id b.id)

  insert-All :
      (P : Anime → Type 0) (x : Anime) (xs : List Anime)
      → P x
      → All P xs
      → All P (insert lower x xs)
  unfolding insert
  insert-All P x [] px h = (px, tt)
  insert-All P x (y ∷ ys) px h = elim (Bool-cases (before lower y x)) [
    | inl b ↦
        subst (λ c. All P (if c then y ∷ insert lower x ys else x ∷ y ∷ ys)) (sym b)
          (h.0, insert-All P x ys px h.1)
    | inr b ↦ subst (λ c. All P (if c then y ∷ insert lower x ys else x ∷ y ∷ ys)) (sym b) (px, h)
  ]

  insert-IsSorted : (x : Anime) (xs : List Anime) → IsSorted xs → IsSorted (insert lower x xs)
  unfolding insert
  insert-IsSorted x [] s = (tt, tt)
  insert-IsSorted x (y ∷ ys) s = elim (Bool-cases (before lower y x)) [
    | inl b ↦
        subst (λ c. IsSorted (if c then y ∷ insert lower x ys else x ∷ y ∷ ys)) (sym b)
          (
            insert-All (λ z. before lower z y ≡ false) x ys (before_asymm y x b) s.0,
            insert-IsSorted x ys s.1,
          )
    | inr b ↦
        subst (λ c. IsSorted (if c then y ∷ insert lower x ys else x ∷ y ∷ ys)) (sym b)
          ((b, All-map (λ z h. before_trans x y z b h) ys s.0), s)
  ]

  sort-IsSorted : (xs : List Anime) → IsSorted (sort lower xs)
  unfolding sort
  sort-IsSorted [] = tt
  sort-IsSorted (x ∷ xs) = insert-IsSorted x (sort lower xs) (sort-IsSorted xs)

  -- After a merge the items are in the order of their titles, those with one title in that of their IDs.
  pub merged-IsSorted : (items new : List Anime) → IsSorted (merged lower items new)
  unfolding merged
  merged-IsSorted items new = sort-IsSorted (put_all (put_all [] items) new)
