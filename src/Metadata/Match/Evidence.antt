-- ===== src/Metadata/Match/Evidence.antt =====
-- What speaks for a candidate that MatchMetadata of core/metadata_match.go accepts.
use mathlib.Core.Path.{subst}
use anime_portable.Metadata.Match.Accepted.{match_sound}
use anime_portable.Metadata.Match.{query_fields_of, is_cross_check, match_metadata, accepted}
use anime_portable.Metadata.Score.Bounds.{agreements, IsLevel, hint_score_high, title_score-IsLevel}
use anime_portable.Metadata.Names.{weak_exact_score, high_score}
use anime_portable.Metadata.Score.{
  Scored, score_all, is_scored, scored, title_score_of, fields_of, hint_score, metadata_aliases,
  score_candidates, series_names,
}
use anime_portable.Metadata.Text.{Unicode, Patterns, Fields}
use anime_portable.Prelude.{
  ℕ, ◌≤◌, ◌<◌, In, Str, is_empty, trim_space, pos, ◌+ℤ◌, ◌≤ℤ◌, +ℤ_parts, ◌≡◌, sym, ◌⊎◌, inl, inr,
  true, false, some, List, [], ◌∷◌, arith, In-if, here, there,
}
use anime_portable.Models.{MetadataQuery, MetadataCandidate}

module _ (unicode : Unicode) (patterns : Patterns) (query : MetadataQuery) where
  -- A scored candidate is one of the request's that the loop keeps.
  score_all-In :
      (fields : Fields) (series : List Str) (candidates : List MetadataCandidate) (s : Scored)
      → In s (score_all unicode patterns query fields series candidates)
      → (c : MetadataCandidate) × In c candidates
        × (is_scored unicode patterns query fields series c ≡ true)
        × (s ≡ scored unicode patterns query fields series c)
  unfolding score_all
  score_all-In fields series [] s i = elim i [ ]
  score_all-In fields series (c ∷ cs) s i =
      elim (In-if (is_scored unicode patterns query fields series c) _ _ i) [
        | inl (k, e) ↦ (c, here, k, e)
        | inr j ↦ let (x, l, m, r) = score_all-In fields series cs s j in (x, there l, m, r)
      ]

  -- What speaks for a candidate besides its score.
  abbrev pub Evidence : Scored → List Scored → Type 0
  Evidence top all =
      (weak_exact_score ≤ top.title_score)
      ⊎ (2
          ≤ agreements query top.candidate (query_fields_of unicode patterns query).season
              top.season)
      ⊎ ((d : Scored) × In d all × (is_cross_check unicode top d ≡ true))

  level_evidence :
      (t : ℕ) (c : MetadataCandidate) (q s : Str)
      → IsLevel t
      → 0 < t
      → pos high_score ≤ℤ pos t +ℤ hint_score query c q s
      → (weak_exact_score ≤ t) ⊎ (2 ≤ agreements query c q s)
  level_evidence t c q s level positive high =
      let hint = hint_score query c q s in
      elim level [
        | inl nothing ↦ absurd (omega (arith, nothing, positive))
        | inr (inl medium) ↦
            inr (hint_score_high query c q s (omega (arith, medium, high, +ℤ_parts (pos t) hint)))
        | inr (inr (inl weak)) ↦ inl (omega (arith, weak))
        | inr (inr (inr full)) ↦ inl (omega (arith, full))
      ]

  scored_evidence :
      (fields : Fields) (series : List Str) (c : MetadataCandidate)
      → is_scored unicode patterns query fields series c ≡ true
      → let top = scored unicode patterns query fields series c in
        pos high_score ≤ℤ top.score
        → (weak_exact_score ≤ top.title_score)
          ⊎ (2 ≤ agreements query top.candidate fields.season top.season)
  scored_evidence fields series c k high =
      let t = title_score_of unicode patterns fields.title fields.native series c in
      level_evidence t c fields.season (fields_of unicode patterns c).season
        (title_score-IsLevel fields.title fields.native (fields_of unicode patterns c).title
          (fields_of unicode patterns c).native (metadata_aliases unicode patterns c.aliases)
          series)
        (ground arith) high

  -- What scoring tells of a scored candidate.
  abbrev IsKept : Fields → List MetadataCandidate → Scored → Type 0
  IsKept fields candidates top =
      In top.candidate candidates
      × (is_empty (trim_space top.candidate.ref.provider) ≡ false)
      × (is_empty (trim_space top.candidate.ref.id) ≡ false)
      × (pos high_score ≤ℤ top.score
          → (weak_exact_score ≤ top.title_score)
            ⊎ (2 ≤ agreements query top.candidate fields.season top.season))

  scored-IsKept :
      (fields : Fields) (candidates : List MetadataCandidate) (top : Scored)
      → In top (score_candidates unicode patterns query fields candidates)
      → IsKept fields candidates top
  unfolding score_candidates
  scored-IsKept fields candidates top i =
      let series = series_names unicode patterns fields.title fields.native candidates in
      let (c, j, k, e) = score_all-In fields series candidates top i in
      subst (IsKept fields candidates) (sym e)
        (j, ground arith, ground arith, λ high. scored_evidence fields series c k high)

  -- An accepted candidate is one of the request's, with a provider and an ID. Its names match at least
  -- weakly, or at least two of the season, the year and the number of episodes are known on both sides
  -- and agree, or an equivalent candidate of another provider is a cross-check.
  pub match-Evidence :
      (candidates : List MetadataCandidate)
      → (match_metadata unicode patterns query candidates).decision ≡ accepted
      → (top : Scored) × ((match_metadata unicode patterns query candidates).candidate
          ≡ some top.candidate)
        × In top.candidate candidates
        × (is_empty (trim_space top.candidate.ref.provider) ≡ false)
        × (is_empty (trim_space top.candidate.ref.id) ≡ false)
        × Evidence top (
            score_candidates unicode patterns query
              (query_fields_of unicode patterns query)
              candidates)
  match-Evidence candidates h =
      let fields = query_fields_of unicode patterns query in
      let (top, is, same) = match_sound unicode patterns query candidates h in
      let (of_request, provider, id, levels) = scored-IsKept fields candidates top is.member in
      (
        top,
        same,
        of_request,
        provider,
        id,
        elim is.reason [
          | inl high ↦ elim (levels high) [ inl weak ↦ inl weak | inr hints ↦ inr (inl hints) ]
          | inr (inl checked) ↦ inr (inr checked)
          | inr (inr weak) ↦ inl (omega (arith, weak))
        ],
      )
