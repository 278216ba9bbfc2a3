-- ===== src/Metadata/Refresh/Sources.antt =====
-- The `sources` of RefreshMetadata in core/metadata_refresh.go know the provider of every candidate.
use anime_portable.Metadata.Match.{query_fields_of}
use mathlib.Core.Path.{subst}
use anime_portable.Metadata.Score.{max_candidates, names_match, series_names}
use anime_portable.Metadata.Text.{Unicode, Patterns}
use anime_portable.Metadata.Refresh.{
  add_found, Provider, source_of, Found, add_answer, browse_with, add_one, is_known, add_listed,
  add_season_candidates, browse_all, browse_season,
}
use anime_portable.Prelude.{
  leb, if◌then◌else◌, Bool-cases, length, In, Str, is_empty, str_eq_refl, ℤ, pos, eq_ℤ, ◌≡◌, refl,
  sym, ◌∙◌, ◌⊎◌, inl, inr, Bool, not, ◌||◌, Option, none, some, List, [], ◌∷◌, ◌++◌, map, arith,
  there, In-append, here,
}
use anime_portable.Models.{MetadataCandidate, MetadataQuery, CatalogInfo}
use anime_portable.Effects.{ok, failed, Result, Eff}

module _ {W : Type 0} where
  -- Every candidate's provider has an entry, which is one of the given providers.
  abbrev pub IsSourced : List (Provider W) → Found W → Type 0
  IsSourced providers found =
      (c : MetadataCandidate)
      → In c found.candidates
      → (p : Provider W) × In p providers × (source_of found.sources c.ref.provider ≡ some p)

  -- A new entry at the front is found, or an older one as before.
  source_of-front :
      (key : Str) (provider : Provider W) (rest : List (Str × Provider W)) (name : Str)
      → (source_of ((key, provider) ∷ rest) name ≡ some provider)
        ⊎ (source_of ((key, provider) ∷ rest) name ≡ source_of rest name)
  unfolding source_of
  source_of-front key provider rest name = ground arith

  source_of-same :
      (key : Str) (provider : Provider W) (rest : List (Str × Provider W))
      → source_of ((key, provider) ∷ rest) key ≡ some provider
  unfolding source_of
  source_of-same key provider rest = ground (arith, str_eq_refl key)

  abbrev entries : Provider W → List MetadataCandidate → List (Str × Provider W)
  entries provider = map (λ (c : MetadataCandidate). (c.ref.provider, provider))

  source_of-entries :
      (provider : Provider W) (candidates : List MetadataCandidate) (rest : List (Str × Provider W))
      (name : Str)
      → (source_of (entries provider candidates ++ rest) name ≡ some provider)
        ⊎ (source_of (entries provider candidates ++ rest) name ≡ source_of rest name)
  source_of-entries provider [] rest name = inr refl
  source_of-entries provider (c ∷ cs) rest name =
      elim (source_of-front c.ref.provider provider (entries provider cs ++ rest) name) [
        | inl new ↦ inl new
        | inr old ↦ elim (source_of-entries provider cs rest name) [
          | inl new ↦ inl (old ∙ new)
          | inr older ↦ inr (old ∙ older)
        ]
      ]

  source_of-member :
      (provider : Provider W) (candidates : List MetadataCandidate) (rest : List (Str × Provider W))
      (c : MetadataCandidate)
      → In c candidates
      → source_of (entries provider candidates ++ rest) c.ref.provider ≡ some provider
  source_of-member provider [] rest c i = elim i [ ]
  source_of-member provider (c ∷ cs) rest _ here =
      source_of-same c.ref.provider provider (entries provider cs ++ rest)
  source_of-member provider (d ∷ cs) rest c (there i) =
      elim (source_of-front d.ref.provider provider (entries provider cs ++ rest) c.ref.provider) [
        | inl new ↦ new
        | inr old ↦ old ∙ source_of-member provider cs rest c i
      ]

  -- More entries of one of the providers do no harm.
  pub more_sources :
      (providers : List (Provider W)) (provider : Provider W) (added : List MetadataCandidate)
      (found : Found W)
      → In provider providers
      → IsSourced providers found
      → IsSourced providers (add_found provider added found)
  unfolding add_found
  more_sources providers provider added found i h c j = elim (In-append found.candidates added j) [
    | inr new ↦ (provider, i, source_of-member provider added found.sources c new)
    | inl old ↦
        let (p, k, e) = h c old in
        elim (source_of-entries provider added found.sources c.ref.provider) [
          | inl newer ↦ (provider, i, newer)
          | inr same ↦ (p, k, same ∙ e)
        ]
  ]

module _ (unicode : Unicode) (patterns : Patterns) (query : MetadataQuery) {W : Type 0}
    (providers : List (Provider W)) where
  module _ (series : List Str) (provider : Provider W) (i : In provider providers) where
    add_one-sources :
        (c : MetadataCandidate) (found : Found W)
        → IsSourced providers found
        → IsSourced providers (add_one unicode patterns query series provider c found)
    unfolding add_one add_found
    add_one-sources c found h =
        let motive = λ (b : Bool).
          IsSourced providers (if b then found else add_found provider (c ∷ []) found) in
        elim (Bool-cases (
          is_known found.candidates c.ref
          || leb max_candidates (length found.candidates)
          || not (names_match unicode patterns query c series))) [
            | inl skip ↦ subst motive (sym skip) h
            | inr one ↦ subst motive (sym one) (more_sources providers provider (c ∷ []) found i h)
          ]

    add_listed-sources :
        (listed : List MetadataCandidate) (found : Found W)
        → IsSourced providers found
        → IsSourced providers (add_listed unicode patterns query series provider listed found)
    unfolding add_listed
    add_listed-sources [] found h = h
    add_listed-sources (c ∷ cs) found h =
        add_listed-sources cs (add_one unicode patterns query series provider c found)
          (add_one-sources c found h)

    add_answer-sources :
        (found : Found W) (result : Result (List MetadataCandidate))
        → IsSourced providers found
        → IsSourced providers (add_answer unicode patterns query series provider found result)
    unfolding add_answer
    add_answer-sources found (failed e) h = h
    add_answer-sources found (ok listed) h = add_listed-sources listed found h

    browse_with-sources :
        (catalog : CatalogInfo) (found : Found W)
        (browse : Option (ℤ → Str → Eff W (List MetadataCandidate))) (w : W)
        → IsSourced providers found
        → IsSourced providers
            (browse_with unicode patterns query series catalog provider found browse w).0
    unfolding browse_with
    browse_with-sources catalog found none w h = h
    browse_with-sources catalog found (some browse) w h =
        add_answer-sources found (browse catalog.year catalog.airing_season w).0 h

  browse_all-sources :
      (series : List Str) (catalog : CatalogInfo) (rest : List (Provider W)) (found : Found W)
      (w : W)
      → ((p : Provider W) → In p rest → In p providers)
      → IsSourced providers found
      → IsSourced providers (browse_all unicode patterns query series catalog rest found w).0
  unfolding browse_all
  browse_all-sources series catalog [] found w all h = h
  browse_all-sources series catalog (p ∷ ps) found w all h =
      let (found', w') = browse_season unicode patterns query series catalog p found w in
      browse_all-sources series catalog ps found' w' (λ q i. all q (there i))
        (browse_with-sources series p (all p here) catalog found p.browse w h)

  pub season-sources :
      (catalog : CatalogInfo) (found : Found W) (w : W)
      → IsSourced providers found
      → IsSourced providers
          (add_season_candidates unicode patterns query catalog providers found w).0
  unfolding add_season_candidates
  season-sources catalog found w h =
      let fields = query_fields_of unicode patterns query in
      let series = series_names unicode patterns fields.title fields.native found.candidates in
      let browsed = browse_all unicode patterns query series catalog providers found w in
      let motive = λ (b : Bool). IsSourced providers (if b then (found, w) else browsed).0 in
      elim (Bool-cases (eq_ℤ catalog.year (pos 0) || is_empty catalog.airing_season)) [
        | inl missing ↦ subst motive (sym missing) h
        | inr known ↦
            subst motive (sym known)
              (browse_all-sources series catalog providers found w (λ p i. i) h)
      ]
