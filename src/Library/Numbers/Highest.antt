-- ===== src/Library/Numbers/Highest.antt =====
-- What highestNumbered of core/following.go finds.
use mathlib.Core.Path.{subst}
use mathlib.Core.Bool.{false≢true}
use anime_portable.Prelude.{◌≡◌, inr, arith, inl, sym, eq_ℤ_iff, In, str_lt_total, [], ap, ◌∙◌}
use anime_portable.Models.{EpisodeId}
use anime_portable.Library.Numbers.{
  finite, FloatParser, NumberMap, Best, consider_all, highest_numbered, Option, Str, List, ℤ, true,
  false, [], pos,
}
use anime_portable.Library.Numbers.Picked.{
  IsEligible, NotAbove, IsListed, Covered, all-Covered, origin,
}

module _ (parse_float : FloatParser) (within : Option (List EpisodeId)) where
  -- `best` is listed with a plain number, inside the set, and no such episode is above it.
  pub record IsHighest (numbers : NumberMap) (best : EpisodeId) : Type 0 where
    pub number : Str
    pub value : ℤ
    pub listed : In (best, number) numbers
    pub eligible : IsEligible parse_float within best number value
    pub greatest :
        (id : EpisodeId) (m : Str) (v : ℤ)
        → In (id, m) numbers
        → IsEligible parse_float within id m v
        → NotAbove parse_float within id v best value

  abbrev nothing : Best
  nothing = record { best = []; best_value = finite (pos 0); found = false }

  above :
      (numbers : NumberMap) (w : ℤ)
      → (consider_all parse_float within numbers nothing).best_value ≡ finite w
      → (id : EpisodeId) (v : ℤ)
      → Covered parse_float within (consider_all parse_float within numbers nothing) id v
      → NotAbove parse_float within id v (consider_all parse_float within numbers nothing).best w
  above numbers w e id v (u, (found, q), c) = subst (NotAbove parse_float within id v _) (cc) c

  found-IsHighest :
      (numbers : NumberMap)
      → IsListed parse_float within numbers (consider_all parse_float within numbers nothing)
      → IsHighest numbers (consider_all parse_float within numbers nothing).best
  found-IsHighest numbers l = record {
    number = l.number;
    value = l.value;
    listed = l.listed;
    eligible = l.eligible;
    greatest = λ id m v i e.
        above numbers l.value l.best_value id v
          (all-Covered parse_float within numbers nothing id m v i e (λ h. cc));
  }

  -- Where some listed episode inside the set has a plain number, an episode is found; it is listed,
  -- inside the set, with a plain number, and the given one is not above it.
  pub highest_numbered-greatest :
      (numbers : NumberMap) (id : EpisodeId) (m : Str) (v : ℤ)
      → In (id, m) numbers
      → IsEligible parse_float within id m v
      → ((highest_numbered parse_float numbers within).1 ≡ true)
        × ((number : Str) × (w : ℤ) × In
              ((highest_numbered parse_float numbers within).0, number)
              numbers
            × IsEligible parse_float within (highest_numbered parse_float numbers within).0 number w
            × NotAbove parse_float within id v (highest_numbered parse_float numbers within).0 w)
  unfolding highest_numbered found-IsHighest
  highest_numbered-greatest numbers id m v i e = elim (origin parse_float within numbers nothing) [
    | inl unchanged ↦
        let (w, (found, q), c) =
          all-Covered parse_float within numbers nothing id m v i e (λ h. cc) in
        absurd (false≢true (sym (ap (λ (b : Best). b.found) unchanged) ∙ found))
    | inr l ↦ (
      l.found,
      (l.number, l.value, l.listed, l.eligible, (found-IsHighest numbers l).greatest id m v i e),
    )
  ]

  highest_unique :
      (a b : NumberMap) (x y : EpisodeId)
      → ((entry : EpisodeId × Str) → In entry a → In entry b)
      → ((entry : EpisodeId × Str) → In entry b → In entry a)
      → IsHighest a x
      → IsHighest b y
      → x ≡ y
  highest_unique a b x y ab ba p q =
      antisymmetric x y p.value q.value (q.greatest x p.number p.value (ab _ p.listed) p.eligible)
        (p.greatest y q.number q.value (ba _ q.listed) q.eligible)
    where
      antisymmetric :
          (x y : EpisodeId) (u v : ℤ)
          → NotAbove parse_float within x u y v
          → NotAbove parse_float within y v x u
          → x ≡ y
      antisymmetric x y u v p q = ground (arith, str_lt_total x y, eq_ℤ_iff u v)

  -- Two iterations over the same entries, in any order, have the same result.
  pub highest_numbered_order :
      (a b : NumberMap)
      → ((entry : EpisodeId × Str) → In entry a → In entry b)
      → ((entry : EpisodeId × Str) → In entry b → In entry a)
      → highest_numbered parse_float a within ≡ highest_numbered parse_float b within
  unfolding highest_numbered
  highest_numbered_order a b ab ba = elim (origin parse_float within a nothing) [
    | inl none_a ↦ elim (origin parse_float within b nothing) [
      | inl none_b ↦ cc
      | inr lb ↦
          let c =
            all-Covered parse_float within a nothing _ _ _ (ba _ lb.listed) lb.eligible (λ h. cc) in
          absurd (false≢true (sym (ap (λ (d : Best). d.found) none_a) ∙ c.1.0))
    ]
    | inr la ↦ elim (origin parse_float within b nothing) [
      | inl none_b ↦
          let c =
            all-Covered parse_float within b nothing _ _ _ (ab _ la.listed) la.eligible (λ h. cc) in
          absurd (false≢true (sym (ap (λ (d : Best). d.found) none_b) ∙ c.1.0))
      | inr lb ↦
          let e = highest_unique a b _ _ ab ba (found-IsHighest a la) (found-IsHighest b lb) in
          cc (e, la.found, lb.found)
    ]
  ]
