-- ===== src/Metadata/Refresh/Listed.antt =====
-- What addSeasonCandidates of core/metadata_refresh.go adds.
use anime_portable.Metadata.Match.{query_fields_of}
use anime_portable.Metadata.Refresh.{
  is_known, add_listed, Provider, Found, browse_all, add_one, browse_season, browse_with,
  add_season_candidates, add_answer,
}
use anime_portable.Metadata.Score.{max_candidates, names_match, series_names}
use mathlib.Core.Path.{subst}
use anime_portable.Metadata.Text.{Unicode, Patterns}
use anime_portable.Prelude.{
  ◌≤◌, ◌<◌, max, leb, if◌then◌else◌, Bool-cases, length, take, All, length-append, All-append,
  All-map, Str, is_empty, ℤ, pos, eq_ℤ, ◌≡◌, refl, sym, ap, ◌∙◌, inl, inr, Bool, true, false, not,
  ◌||◌, Option, none, some, List, [], ◌∷◌, ◌++◌, arith,
}
use mathlib.Core.List.{append-nil, append_assoc}
use anime_portable.Models.{MetadataCandidate, MetadataQuery, CatalogInfo}
use anime_portable.Effects.{ok, failed, Result, Eff}

module _ (unicode : Unicode) (patterns : Patterns) (query : MetadataQuery) (series : List Str) where
  -- A later list of candidates has more at the end: works that were not there, whose names match, and
  -- no more than MatchMetadata takes.
  pub record Extends (old new : List MetadataCandidate) : Type 0 where
    pub added : List MetadataCandidate
    pub all : new ≡ old ++ added
    pub few : length new ≤ max max_candidates (length old)
    pub named :
        All
          (λ c. (names_match unicode patterns query c series ≡ true) × (is_known old c.ref ≡ false))
          added

  Extends-refl : (old : List MetadataCandidate) → Extends old old
  Extends-refl old = record {
    added = [];
    all = sym (append-nil old);
    few = omega arith;
    named = tt;
  }

  is_known-append :
      (xs ys : List MetadataCandidate) (c : MetadataCandidate)
      → is_known (xs ++ ys) c.ref ≡ false
      → is_known xs c.ref ≡ false
  unfolding is_known
  is_known-append [] ys c h = refl
  is_known-append (x ∷ xs) ys c h = ground (arith, is_known-append xs ys c)

  Extends-trans : (a b c : List MetadataCandidate) → Extends a b → Extends b c → Extends a c
  Extends-trans a b c h k = record {
    added = h.added ++ k.added;
    all = k.all ∙ ap (λ l. l ++ k.added) h.all ∙ append_assoc a h.added k.added;
    few = omega (arith, h.few, k.few);
    named = All-append _ h.added k.added h.named (
        All-map
          (λ x new. (
            new.0,
            is_known-append a h.added x (subst (λ l. is_known l x.ref ≡ false) h.all new.1),
          ))
          k.added k.named);
  }

  one_more :
      (old : List MetadataCandidate) (c : MetadataCandidate)
      → is_known old c.ref ≡ false
      → length old < max_candidates
      → names_match unicode patterns query c series ≡ true
      → Extends old (old ++ c ∷ [])
  one_more old c new room named = record {
    added = c ∷ [];
    all = refl;
    few = omega (arith, length-append old (c ∷ []), room);
    named = ((named, new), tt);
  }

  module _ {W : Type 0} where
    add_one-Extends :
        (provider : Provider W) (c : MetadataCandidate) (found : Found W)
        → Extends found.candidates
            (add_one unicode patterns query series provider c found).candidates
    unfolding add_one
    add_one-Extends provider c found =
        elim (Bool-cases (
          is_known found.candidates c.ref
          || leb max_candidates (length found.candidates)
          || not (names_match unicode patterns query c series))) [
            | inl skip ↦
                subst (Extends found.candidates) (ground arith) (Extends-refl found.candidates)
            | inr take ↦
                subst (Extends found.candidates) (ground arith)
                  (one_more found.candidates c (ground arith) (ground arith) (ground arith))
          ]

    add_listed-Extends :
        (provider : Provider W) (listed : List MetadataCandidate) (found : Found W)
        → Extends found.candidates
            (add_listed unicode patterns query series provider listed found).candidates
    unfolding add_listed
    add_listed-Extends provider [] found = Extends-refl found.candidates
    add_listed-Extends provider (c ∷ cs) found =
        let found' = add_one unicode patterns query series provider c found in
        Extends-trans found.candidates found'.candidates _ (add_one-Extends provider c found)
          (add_listed-Extends provider cs found')

    add_answer-Extends :
        (provider : Provider W) (found : Found W) (result : Result (List MetadataCandidate))
        → Extends found.candidates
            (add_answer unicode patterns query series provider found result).candidates
    unfolding add_answer
    add_answer-Extends provider found (failed e) = Extends-refl found.candidates
    add_answer-Extends provider found (ok listed) = add_listed-Extends provider listed found

    browse_with-Extends :
        (catalog : CatalogInfo) (provider : Provider W) (found : Found W)
        (browse : Option (ℤ → Str → Eff W (List MetadataCandidate))) (w : W)
        → Extends found.candidates
            (browse_with unicode patterns query series catalog provider found browse w).0.candidates
    unfolding browse_with
    browse_with-Extends catalog provider found none w = Extends-refl found.candidates
    browse_with-Extends catalog provider found (some browse) w =
        add_answer-Extends provider found (browse catalog.year catalog.airing_season w).0

    browse_all-Extends :
        (catalog : CatalogInfo) (providers : List (Provider W)) (found : Found W) (w : W)
        → Extends found.candidates
            (browse_all unicode patterns query series catalog providers found w).0.candidates
    unfolding browse_all
    browse_all-Extends catalog [] found w = Extends-refl found.candidates
    browse_all-Extends catalog (p ∷ ps) found w =
        let (found', w') = browse_season unicode patterns query series catalog p found w in
        Extends-trans found.candidates found'.candidates _
          (browse_with-Extends catalog p found p.browse w) (browse_all-Extends catalog ps found' w')

module _ (unicode : Unicode) (patterns : Patterns) {W : Type 0} where
  -- addSeasonCandidates keeps the candidates that it is given, in their order, and adds at the end only
  -- works that were not among them and whose names match the query; where it adds any there are no more
  -- than MatchMetadata takes.
  pub season-Extends :
      (query : MetadataQuery) (catalog : CatalogInfo) (providers : List (Provider W))
      (found : Found W) (w : W)
      → let fields = query_fields_of unicode patterns query in
        Extends unicode patterns query
          (series_names unicode patterns fields.title fields.native found.candidates)
          found.candidates
          (add_season_candidates unicode patterns query catalog providers found w).0.candidates
  unfolding add_season_candidates
  season-Extends query catalog providers found w =
      let fields = query_fields_of unicode patterns query in
      let series = series_names unicode patterns fields.title fields.native found.candidates in
      let motive = λ (b : Bool).
        Extends unicode patterns query series found.candidates
          (if b
            then (found, w)
            else browse_all unicode patterns query series catalog providers found w).0.candidates in
      elim (Bool-cases (eq_ℤ catalog.year (pos 0) || is_empty catalog.airing_season)) [
        | inl missing ↦
            subst motive (sym missing) (Extends-refl unicode patterns query series found.candidates)
        | inr known ↦
            subst motive (sym known)
              (browse_all-Extends unicode patterns query series catalog providers found w)
      ]
