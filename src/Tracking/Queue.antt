-- ===== src/Tracking/Queue.antt =====
-- core/playback_tracking.go: the slice operations of the bounded event queues.
use mathlib.Core.Path.{subst}
use anime_portable.Prelude.{
  ℕ, suc, length, length-append, All, Bool, true, false, Bool-cases, Option, none, some,
  Option-cases, List, [], ◌∷◌, ◌++◌, ◌≡◌, refl, sym, ap, inl, inr, arith, if◌then◌else◌,
}

-- trackedEventQueueCapacity
abbrev pub queue_capacity : ℕ
queue_capacity = 32

module _ {ℓ} {A : Type ℓ} where
  -- The first element that passes the test is taken out; `none` if there is none.
  unfoldable pub remove_first : (A → Bool) → List A → Option (List A)
  remove_first test [] = none
  remove_first test (x ∷ xs) =
      let rest = remove_first test xs in
      if test x then some xs else elim rest [ none ↦ none | some ys ↦ some (x ∷ ys) ]

  -- Whether the slice is not empty and its last element passes the test.
  unfoldable pub is_last : (A → Bool) → List A → Bool
  is_last test [] = false
  is_last test (x ∷ []) = test x
  is_last test (x ∷ y ∷ ys) = is_last test (y ∷ ys)

  -- `events[len(events)-1] = event`
  unfoldable pub set_last : List A → A → List A
  set_last [] v = []
  set_last (x ∷ []) v = v ∷ []
  set_last (x ∷ y ∷ ys) v = x ∷ set_last (y ∷ ys) v

  pub length-set_last : (xs : List A) (v : A) → length (set_last xs v) ≡ length xs
  unfolding set_last
  length-set_last [] v = refl
  length-set_last (x ∷ []) v = refl
  length-set_last (x ∷ y ∷ ys) v = omega (arith, length-set_last (y ∷ ys) v)

  -- What `remove_first` takes out, with what stood before it and after it.
  pub remove_first-split :
      (test : A → Bool) (xs ys : List A)
      → remove_first test xs ≡ some ys
      → (before : List A) × (x : A) × (after : List A) × (xs ≡ before ++ x ∷ after)
        × (ys ≡ before ++ after)
        × (test x ≡ true)
  unfolding remove_first
  remove_first-split test [] ys h = cc
  remove_first-split test (x ∷ xs) ys h = elim (Bool-cases (test x)) [
    | inl hit ↦ ([], x, xs, refl, ground arith, hit)
    | inr miss ↦ elim (Option-cases (remove_first test xs)) [
      | inl e ↦ absurd (ground arith)
      | inr (zs, e) ↦
          let (before, y, after, p, q, t) = remove_first-split test xs zs e in
          (x ∷ before, y, after, ap (λ r. x ∷ r) p, ground arith, t)
    ]
  ]

  pub length-remove_first :
      (test : A → Bool) (xs ys : List A)
      → remove_first test xs ≡ some ys
      → suc (length ys) ≡ length xs
  length-remove_first test xs ys h =
      let (before, x, after, p, q, t) = remove_first-split test xs ys h in
      omega (
        arith,
        ap length p,
        ap length q,
        length-append before after,
        length-append before (x ∷ after),
      )

module _ {ℓ κ} {A : Type ℓ} (P : A → Type κ) where
  pub All-set_last : (xs : List A) (v : A) → All P xs → P v → All P (set_last xs v)
  unfolding set_last
  All-set_last [] v h p = tt
  All-set_last (x ∷ []) v h p = (p, tt)
  All-set_last (x ∷ y ∷ ys) v h p = (h.0, All-set_last (y ∷ ys) v h.1 p)

  All-drop_middle :
      (before : List A) (x : A) (after : List A)
      → All P (before ++ x ∷ after)
      → All P (before ++ after)
  All-drop_middle [] x after h = h.1
  All-drop_middle (y ∷ before) x after h = (h.0, All-drop_middle before x after h.1)

  pub All-remove_first :
      (test : A → Bool) (xs ys : List A) → remove_first test xs ≡ some ys → All P xs → All P ys
  All-remove_first test xs ys h all =
      let (before, x, after, p, q, t) = remove_first-split test xs ys h in
      subst (All P) (sym q) (All-drop_middle before x after (subst (All P) p all))
