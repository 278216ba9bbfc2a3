-- ===== src/Library/Numbers/Picked.antt =====
-- What the loop of highestNumbered in core/following.go has picked so far.
use mathlib.Core.Path.{subst}
use anime_portable.Prelude.{
  ◌≡◌, ◌&&◌, Bool-cases, inr, arith, inl, refl, sym, str_lt_irrefl, ◌⊎◌, ◌||◌, str_lt_trans,
  eq_ℤ_iff, ◌∷◌, In, [], ◌∙◌,
}
use anime_portable.Models.{EpisodeId}
use anime_portable.Library.Numbers.{
  Float, nan, infinite, finite, FloatParser, NumberMap, Best, episode_number_value, is_within,
  is_better, consider, consider_all, is_nan, is_inf, Option, Str, Bool, List, ℤ, not, true, false,
  trim_space, ltb_ℤ, eq_ℤ, str_lt, [],
}

accepted_value :
    (value : Float) (parsed : Bool)
    → (parsed && not (is_nan value) && not (is_inf value)) ≡ true
    → (v : ℤ) × (value ≡ finite v)
accepted_value nan parsed h = absurd (ground arith)
accepted_value (infinite negative) parsed h = absurd (ground arith)
accepted_value (finite v) parsed h = (v, refl)

module _ (parse_float : FloatParser) where
  -- A plain number is a finite float.
  pub episode_number_value-finite :
      (number : Str)
      → (episode_number_value parse_float number).1 ≡ true
      → (v : ℤ) × (episode_number_value parse_float number ≡ (finite v, true))
  unfolding episode_number_value
  episode_number_value-finite number h =
      let (value, parsed) = parse_float (trim_space number) in
      let (v, e) = accepted_value value parsed h in (v, ground arith)

module _ (parse_float : FloatParser) (within : Option (List EpisodeId)) where
  -- The episode is in the set and its number is the plain number `v`.
  pub record IsEligible (id : EpisodeId) (number : Str) (v : ℤ) : Type 0 where
    pub inside : is_within within id ≡ true
    pub plain : episode_number_value parse_float number ≡ (finite v, true)

  -- What one round of the loop does.
  pub data Outcome (id : EpisodeId) (number : Str) (b : Best) (b' : Best) : Type 0 where
    kept :
        ((v : ℤ) → IsEligible id number v → is_better id (finite v) b ≡ false)
        → b' ≡ b
        → Outcome id number b b'
    better :
        (v : ℤ)
        → IsEligible id number v
        → is_better id (finite v) b ≡ true
        → b' ≡ record { best = id; best_value = finite v; found = true }
        → Outcome id number b b'

  pub consider-Outcome :
      (id : EpisodeId) (number : Str) (b : Best)
      → Outcome id number b (consider parse_float within id number b)
  unfolding consider
  consider-Outcome id number b = elim (Bool-cases (is_within within id)) [
    | inr outside ↦ kept (λ v e. cc (e.inside)) (ground arith)
    | inl inside ↦ elim (Bool-cases (episode_number_value parse_float number).1) [
      | inr label ↦ kept (λ v e. ground (arith, e.plain)) (ground arith)
      | inl plain ↦
          let (v, e) = episode_number_value-finite parse_float number plain in
          elim (Bool-cases (is_better id (finite v) b)) [
            | inl improves ↦
                better v (record { inside = inside; plain = e }) improves (ground arith)
            | inr worse ↦ kept (λ u f. ground (arith, f.plain)) (ground arith)
          ]
    ]
  ]

  abbrev pub HasValue : Best → ℤ → Type 0
  HasValue b w = (b.found ≡ true) × (b.best_value ≡ finite w)

  -- `v` with `id` is no higher than `w` with `best`.
  abbrev pub NotAbove : EpisodeId → ℤ → EpisodeId → ℤ → Type 0
  NotAbove id v best w = (ltb_ℤ v w ≡ true) ⊎ ((v ≡ w) × (str_lt best id ≡ false))

  abbrev pub Covered : Best → EpisodeId → ℤ → Type 0
  Covered b id v = (w : ℤ) × HasValue b w × NotAbove id v b.best w

  abbrev pub IsFinite : Best → Type 0
  IsFinite b = b.found ≡ true → (w : ℤ) × (b.best_value ≡ finite w)

  pub value_unique :
      (number : Str) (u v : ℤ)
      → episode_number_value parse_float number ≡ (finite u, true)
      → episode_number_value parse_float number ≡ (finite v, true)
      → u ≡ v
  value_unique number u v p q = cc

  pub covers_kept :
      (id : EpisodeId) (v : ℤ) (b : Best)
      → IsFinite b
      → is_better id (finite v) b ≡ false
      → Covered b id v
  unfolding is_better
  covers_kept id v b finite_best worse =
      let found : b.found ≡ true = ground arith in
      let (w, e) = finite_best found in (w, (found, e), not_above v w b.best id (ground arith))
    where
      not_above :
          (v w : ℤ) (best id : EpisodeId)
          → (ltb_ℤ w v || (eq_ℤ v w && str_lt best id)) ≡ false
          → NotAbove id v best w
      not_above v w best id h = ground (arith, eq_ℤ_iff v w)

  pub covers_new :
      (id : EpisodeId) (number : Str) (v : ℤ) (b b' : Best)
      → IsEligible id number v
      → IsFinite b
      → Outcome id number b b'
      → Covered b' id v
  covers_new id number v b b' e finite_best (kept worse same) =
      subst (λ c. Covered c id v) (sym same) (covers_kept id v b finite_best (worse v e))
  covers_new id number v b b' e finite_best (better u f improves new) =
      subst (λ c. Covered c id v) (sym new)
        (u, (refl, refl), inr (value_unique number v u e.plain f.plain, str_lt_irrefl id))

  pub above_trans :
      (x : EpisodeId) (u : ℤ) (best : EpisodeId) (w : ℤ) (id : EpisodeId) (v : ℤ)
      → NotAbove x u best w
      → (ltb_ℤ w v || (eq_ℤ v w && str_lt best id)) ≡ true
      → NotAbove x u id v
  above_trans x u best w id v c h = ground (arith, str_lt_trans best id x, eq_ℤ_iff v w)

  pub covers_old :
      (x : EpisodeId) (u : ℤ) (id : EpisodeId) (number : Str) (b b' : Best)
      → Covered b x u
      → Outcome id number b b'
      → Covered b' x u
  unfolding is_better
  covers_old x u id number b b' c (kept worse same) = subst (λ d. Covered d x u) (sym same) c
  covers_old x u id number b b' (w, (found, e), c) (better v f improves new) =
      subst (λ d. Covered d x u) (sym new)
        (v, (refl, refl), above_trans x u b.best w id v c (ground arith))

  pub IsFinite-kept :
      (id : EpisodeId) (number : Str) (b b' : Best)
      → IsFinite b
      → Outcome id number b b'
      → IsFinite b'
  IsFinite-kept id number b b' h (kept worse same) = subst IsFinite (sym same) h
  IsFinite-kept id number b b' h (better v f improves new) =
      subst IsFinite (sym new) (λ _. (v, refl))

  pub keeps_Covered :
      (numbers : NumberMap) (b : Best) (x : EpisodeId) (u : ℤ)
      → Covered b x u
      → Covered (consider_all parse_float within numbers b) x u
  unfolding consider_all
  keeps_Covered [] b x u c = c
  keeps_Covered ((id, number) ∷ rest) b x u c =
      keeps_Covered rest (consider parse_float within id number b) x u
        (covers_old x u id number b _ c (consider-Outcome id number b))

  pub all-Covered :
      (numbers : NumberMap) (b : Best) (x : EpisodeId) (m : Str) (u : ℤ)
      → In (x, m) numbers
      → IsEligible x m u
      → IsFinite b
      → Covered (consider_all parse_float within numbers b) x u
  unfolding consider_all
  all-Covered [] b x m u i e finite_best = elim i [ ]
  all-Covered (_ ∷ rest) b x m u In.here e finite_best =
      keeps_Covered rest (consider parse_float within x m b) x u
        (covers_new x m u b _ e finite_best (consider-Outcome x m b))
  all-Covered ((id, number) ∷ rest) b x m u (In.there i) e finite_best =
      all-Covered rest (consider parse_float within id number b) x m u i e
        (IsFinite-kept id number b _ finite_best (consider-Outcome id number b))

  -- An entry that the loop can have picked.
  pub record IsListed (numbers : NumberMap) (b : Best) : Type 0 where
    pub number : Str
    pub value : ℤ
    pub listed : In (b.best, number) numbers
    pub eligible : IsEligible b.best number value
    pub found : b.found ≡ true
    pub best_value : b.best_value ≡ finite value

  pub later-IsListed :
      (entry : EpisodeId × Str) (numbers : NumberMap) (b : Best)
      → IsListed numbers b
      → IsListed (entry ∷ numbers) b
  later-IsListed entry numbers b l = record {
    number = l.number;
    value = l.value;
    listed = In.there l.listed;
    eligible = l.eligible;
    found = l.found;
    best_value = l.best_value;
  }

  pub new-IsListed :
      (id : EpisodeId) (number : Str) (rest : NumberMap) (b b' : Best)
      → Outcome id number b b'
      → (b' ≡ b) ⊎ IsListed ((id, number) ∷ rest) b'
  new-IsListed id number rest b b' (kept worse same) = inl same
  new-IsListed id number rest b b' (better v e improves new) = inr (
      subst (IsListed ((id, number) ∷ rest)) (sym new) (record {
        number = number;
        value = v;
        listed = In.here;
        eligible = e;
        found = refl;
        best_value = refl;
      }))

  -- A pick that later rounds may keep.
  pub origin :
      (numbers : NumberMap) (b : Best)
      → (consider_all parse_float within numbers b ≡ b)
        ⊎ IsListed numbers (consider_all parse_float within numbers b)
  unfolding consider_all
  origin [] b = inl refl
  origin ((id, number) ∷ rest) b = elim (origin rest (consider parse_float within id number b)) [
    | inr later ↦ inr (later-IsListed (id, number) rest _ later)
    | inl same ↦ elim (new-IsListed id number rest b _ (consider-Outcome id number b)) [
      | inl kept_b ↦ inl (same ∙ kept_b)
      | inr l ↦ inr (subst (IsListed ((id, number) ∷ rest)) (sym same) l)
    ]
  ]
