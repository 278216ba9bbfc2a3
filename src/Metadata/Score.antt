-- ===== src/Metadata/Score.antt =====
-- core/metadata_match.go: the score of a candidate.
pub mod Bounds
use anime_portable.Metadata.Text.{Unicode, Patterns, title_parts, Fields, metadata_fields}
use anime_portable.Metadata.Names.{text_score, weak_exact_score, high_score}
use anime_portable.Prelude.{
  ℕ, max, ltb, ◌==◌, if◌then◌else◌, take, Str, str_eq, is_empty, trim_space, ℤ, pos, negsuc, ◌+ℤ◌,
  ◌-ℤ◌, ltb_ℤ, eq_ℤ, Bool, false, not, ◌&&◌, ◌||◌, none, some, List, [], ◌∷◌, ◌++◌,
}
use anime_portable.Models.{MetadataQuery, MetadataCandidate}

-- metadataMaxCandidates and metadataMaxAliases
abbrev pub max_candidates : ℕ
max_candidates = 100

abbrev pub max_aliases : ℕ
max_aliases = 16

-- The inner loop of bestMetadataTitleScore over the titles, for one name of the query.
unfoldable pub best_of_titles : Str → List Str → ℕ → ℕ
best_of_titles query [] best = best
best_of_titles query (title ∷ titles) best =
    best_of_titles query titles (max best (text_score query title))

-- The one over the aliases.
unfoldable pub best_of_aliases : Str → List Str → ℕ → ℕ
best_of_aliases query [] best = best
best_of_aliases query (alias ∷ aliases) best =
    best_of_aliases query aliases
      (if text_score query alias == high_score then max best weak_exact_score else best)

-- bestMetadataTitleScore
unfoldable pub best_title_score : Str → Str → List Str → List Str → ℕ
best_title_score query_title query_native titles aliases =
    let titled = best_of_aliases query_title aliases (best_of_titles query_title titles 0) in
    best_of_aliases query_native aliases (best_of_titles query_native titles titled)

-- metadataSeriesMatch
unfoldable pub series_match : List Str → Str → Str → Bool
series_match [] title native = false
series_match (name ∷ series) title native =
    text_score name title == high_score
    || text_score name native == high_score
    || series_match series title native

-- candidateTitleScore
unfoldable pub candidate_title_score : Str → Str → Str → Str → List Str → List Str → ℕ
candidate_title_score query_title query_native title native aliases series =
    let score = best_title_score query_title query_native (title ∷ native ∷ []) aliases in
    if ltb score weak_exact_score && series_match series title native
    then weak_exact_score
    else score

-- The part of metadataHintScore for the seasons.
unfoldable pub season_hint : Str → Str → ℤ
season_hint query_season candidate_season =
    if not (is_empty query_season) && not (is_empty candidate_season)
    then (if str_eq query_season candidate_season then pos 12 else negsuc 13)
    else if not (is_empty query_season) || not (is_empty candidate_season)
    then negsuc 9
    else pos 0

-- The part for the years; one year apart is neither for nor against.
unfoldable pub year_hint : ℤ → ℤ → ℤ
year_hint query_year candidate_year =
    if ltb_ℤ (pos 0) query_year && ltb_ℤ (pos 0) candidate_year
    then (let difference = query_year -ℤ candidate_year in
        if eq_ℤ difference (pos 0)
        then pos 12
        else if eq_ℤ difference (pos 1) || eq_ℤ difference (negsuc 0)
        then pos 0
        else negsuc 13)
    else pos 0

-- The part for the numbers of episodes.
unfoldable pub count_hint : ℤ → ℤ → ℤ
count_hint query_count candidate_count =
    if ltb_ℤ (pos 0) query_count && ltb_ℤ (pos 0) candidate_count
    then (if eq_ℤ query_count candidate_count then pos 8 else negsuc 9)
    else pos 0

-- metadataHintScore
unfoldable pub hint_score : MetadataQuery → MetadataCandidate → Str → Str → ℤ
hint_score query candidate query_season candidate_season =
    season_hint query_season candidate_season
    +ℤ year_hint query.year candidate.year
    +ℤ count_hint query.episode_count candidate.episode_count

-- metadataScoredCandidate
pub record Scored : Type 0 where
  pub candidate : MetadataCandidate
  pub title : Str
  pub native : Str
  pub season : Str
  pub title_score : ℕ
  pub score : ℤ

-- `slices.Contains(names, name)`
abbrev has_name : List Str → Str → Bool
has_name [] name = false
has_name (x ∷ xs) name = str_eq x name || has_name xs name

-- One name of a candidate in metadataSeriesNames.
unfoldable pub add_name : Str → Str → List Str → Str → List Str
add_name query_title query_native names name =
    if not (is_empty name)
      && not (str_eq name query_title)
      && not (str_eq name query_native)
      && not (has_name names name)
    then names ++ name ∷ []
    else names

-- Whether the loop over a candidate's aliases reaches one that is the query's name.
unfoldable pub has_query_alias : Str → Str → List Str → Bool
has_query_alias query_title query_native [] = false
has_query_alias query_title query_native (alias ∷ aliases) =
    text_score query_title alias == high_score
    || text_score query_native alias == high_score
    || has_query_alias query_title query_native aliases

module _ (unicode : Unicode) (patterns : Patterns) where
  -- The loop of metadataAliases.
  unfoldable pub aliases_of : List Str → List Str
  aliases_of [] = []
  aliases_of (value ∷ values) =
      let rest = aliases_of values in
      elim (title_parts unicode patterns value) [
        | none ↦ rest
        | some (alias, season) ↦ if is_empty alias then rest else alias ∷ rest
      ]

  -- metadataAliases
  unfoldable pub metadata_aliases : List Str → List Str
  metadata_aliases values = aliases_of (take max_aliases values)

  abbrev pub fields_of : MetadataCandidate → Fields
  fields_of candidate = metadata_fields unicode patterns candidate.title candidate.native_title

  -- The loop of metadataSeriesNames.
  unfoldable pub add_series_names : Str → Str → List Str → List MetadataCandidate → List Str
  add_series_names query_title query_native names [] = names
  add_series_names query_title query_native names (candidate ∷ candidates) =
      let fields = fields_of candidate in
      let add = add_name query_title query_native in
      add_series_names query_title query_native
        (if has_query_alias query_title query_native (metadata_aliases candidate.aliases)
          then add (add names fields.title) fields.native
          else names)
        candidates

  -- metadataSeriesNames
  unfoldable pub series_names : Str → Str → List MetadataCandidate → List Str
  series_names query_title query_native candidates =
      add_series_names query_title query_native [] candidates

  -- What candidateTitleScore gives a candidate.
  abbrev pub title_score_of : Str → Str → List Str → MetadataCandidate → ℕ
  title_score_of query_title query_native series candidate =
      let fields = fields_of candidate in
      candidate_title_score query_title query_native fields.title fields.native
        (metadata_aliases candidate.aliases) series

  -- metadataNamesMatch
  unfoldable pub names_match : MetadataQuery → MetadataCandidate → List Str → Bool
  names_match query candidate series =
      let fields = metadata_fields unicode patterns query.title query.native_title in
      ltb 0 (title_score_of fields.title fields.native series candidate)

  module _ (query : MetadataQuery) where
    -- A candidate as scoreMetadataCandidates scores it.
    abbrev pub scored : Fields → List Str → MetadataCandidate → Scored
    scored query_fields series candidate =
        let fields = fields_of candidate in
        let title_score = title_score_of query_fields.title query_fields.native series candidate in
        record {
          candidate = candidate;
          title = fields.title;
          native = fields.native;
          season = fields.season;
          title_score = title_score;
          score = pos title_score +ℤ hint_score query candidate query_fields.season fields.season;
        }

    -- Whether the loop of scoreMetadataCandidates keeps it.
    abbrev pub is_scored : Fields → List Str → MetadataCandidate → Bool
    is_scored query_fields series candidate =
        not (is_empty (trim_space candidate.ref.provider))
        && not (is_empty (trim_space candidate.ref.id))
        && ltb 0 (title_score_of query_fields.title query_fields.native series candidate)

    unfoldable pub score_all : Fields → List Str → List MetadataCandidate → List Scored
    score_all query_fields series [] = []
    score_all query_fields series (candidate ∷ candidates) =
        let rest = score_all query_fields series candidates in
        if is_scored query_fields series candidate
        then scored query_fields series candidate ∷ rest
        else rest

    -- scoreMetadataCandidates
    unfoldable pub score_candidates : Fields → List MetadataCandidate → List Scored
    score_candidates query_fields candidates =
        score_all query_fields (series_names query_fields.title query_fields.native candidates)
          candidates
