-- ===== src/Metadata/Match.antt =====
-- core/metadata_match.go: the order of the candidates and MatchMetadata.
pub mod Evidence
pub mod Accepted
use anime_portable.Metadata.Names.{medium_score, cut_subtitle, high_score, weak_exact_score}
use anime_portable.Metadata.Score.{Scored, score_candidates, max_candidates}
use anime_portable.Metadata.Text.{Unicode, Patterns, Fields, metadata_fields}
use anime_portable.Prelude.{
  ℕ, zero, suc, ◌+◌, ltb, leb, ◌==◌, if◌then◌else◌, length, Str, bytes, str_eq, is_empty, str_lt,
  trim_space, ℤ, pos, ◌-ℤ◌, ltb_ℤ, leb_ℤ, eq_ℤ, Bool, true, false, not, ◌&&◌, ◌||◌, Option, none,
  some, List, [], ◌∷◌, contains, utf8, has_prefix, sort_by,
}
use anime_portable.Models.{MetadataRef, MetadataQuery, MetadataCandidate}

pub data MatchDecision : Type 0 where
  no_metadata needs_cross_check accepted : MatchDecision

-- MetadataMatchResult; the candidate is none where the code leaves it zero.
pub record MatchResult : Type 0 where
  pub decision : MatchDecision
  pub candidate : Option MetadataCandidate

-- noMetadataResult
abbrev pub no_result : MatchResult
no_result = record { decision = no_metadata; candidate = none }

-- metadataAmbiguityGap
abbrev pub ambiguity_gap : ℤ
ambiguity_gap = pos 8

abbrev all_digits : Str → Bool
all_digits [] = true
all_digits (x ∷ s) = leb 0x30 x && leb x 0x39 && all_digits s

-- metadataNumericID: nothing is left once the digits of both ends are taken off.
unfoldable pub is_numeric_id : Str → Bool
is_numeric_id value = not (is_empty value) && all_digits value

-- Case folding of the letters of metadataSpecialArc; U+017F, of two bytes, folds to s. `skip` bytes
-- belong to a letter already folded.
abbrev fold_case : ℕ → Str → Str
fold_case skip [] = []
fold_case (suc skip) (x ∷ s) = fold_case skip s
fold_case zero (x ∷ s) =
    let is_long_s = has_prefix (x ∷ s) (0xc5 ∷ 0xbf ∷ []) in
    let rest = fold_case (if is_long_s then 1 else 0) s in
    (if is_long_s then 0x73 else if leb 0x41 x && leb x 0x5a then x + 0x20 else x) ∷ rest

-- `metadataSpecialArc.MatchString(arc)`
unfoldable pub is_special_arc : Str → Bool
is_special_arc arc =
    let folded = fold_case 0 arc in
    contains folded (bytes "ova")
    || contains folded (bytes "oad")
    || contains folded (bytes "special")
    || contains folded (utf8 "特别")
    || contains folded (utf8 "总集")
    || contains folded (utf8 "剧场")
    || contains folded (utf8 "迷你")
    || contains folded (bytes "sp")

-- equivalentMetadataCandidates
unfoldable pub equivalent_candidates : Scored → Scored → Bool
equivalent_candidates left right =
    let title_equal = not (is_empty left.title) && str_eq left.title right.title in
    let native_equal = not (is_empty left.native) && str_eq left.native right.native in
    if not title_equal && not native_equal
    then false
    else if not (is_empty left.season)
        && not (is_empty right.season)
        && not (str_eq left.season right.season)
    then false
    else if ltb_ℤ (pos 0) left.candidate.year
        && ltb_ℤ (pos 0) right.candidate.year
        && not (eq_ℤ left.candidate.year right.candidate.year)
    then false
    else if ltb_ℤ (pos 0) left.candidate.episode_count
        && ltb_ℤ (pos 0) right.candidate.episode_count
        && not (eq_ℤ left.candidate.episode_count right.candidate.episode_count)
    then false
    else true

module _ (unicode : Unicode) where
  -- metadataProviderRank
  unfoldable pub provider_rank : Str → ℕ
  provider_rank provider =
      let name = unicode.lower (trim_space provider) in
      if str_eq name (bytes "bangumi") then 0 else if str_eq name (bytes "anilist") then 1 else 2

  -- The end of metadataCandidateBefore: candidates of one score.
  unfoldable pub ref_before : MetadataRef → MetadataRef → Bool
  ref_before left right =
      let left_rank = provider_rank left.provider in
      let right_rank = provider_rank right.provider in
      if not (left_rank == right_rank)
      then ltb left_rank right_rank
      else if not (str_eq left.provider right.provider)
      then str_lt left.provider right.provider
      else if not (length left.id == length right.id)
          && is_numeric_id left.id
          && is_numeric_id right.id
      then ltb (length left.id) (length right.id)
      else str_lt left.id right.id

  -- metadataCandidateBefore
  unfoldable pub candidate_before : Scored → Scored → Bool
  candidate_before left right =
      if not (eq_ℤ left.score right.score)
      then ltb_ℤ right.score left.score
      else ref_before left.candidate.ref right.candidate.ref

  -- sameMetadataProvider
  unfoldable pub same_provider : Scored → Scored → Bool
  same_provider left right =
      unicode.equal_fold (trim_space left.candidate.ref.provider)
        (trim_space right.candidate.ref.provider)

  -- sameSeasonArcs
  unfoldable pub same_season_arcs : Scored → Scored → Bool
  same_season_arcs left right =
      let (left_main, left_arc) = cut_subtitle left.title in
      let (right_main, right_arc) = cut_subtitle right.title in
      same_provider left right
      && not (is_empty left.season)
      && str_eq left.season right.season
      && not (is_empty left_main)
      && str_eq left_main right_main
      && not (is_empty left_arc)
      && not (is_empty right_arc)
      && not (is_special_arc left_arc)
      && not (is_special_arc right_arc)

  -- Whether one other candidate is a cross-check of the top one.
  unfoldable pub is_cross_check : Scored → Scored → Bool
  is_cross_check top other =
      leb_ℤ (pos medium_score) other.score
      && equivalent_candidates top other
      && not (same_provider top other)

  -- metadataHasCrossCheck
  unfoldable pub has_cross_check : Scored → List Scored → Bool
  has_cross_check top [] = false
  has_cross_check top (other ∷ others) = is_cross_check top other || has_cross_check top others

  -- Whether one other candidate is in conflict with the top one.
  unfoldable pub is_conflict : Scored → Scored → Bool
  is_conflict top other =
      if equivalent_candidates top other
        && (not (same_provider top other) || str_eq top.candidate.ref.id other.candidate.ref.id)
      then false
      else if same_season_arcs top other
      then false
      else leb_ℤ (top.score -ℤ ambiguity_gap) other.score

  -- metadataHasConflict
  unfoldable pub has_conflict : Scored → List Scored → Bool
  has_conflict top [] = false
  has_conflict top (other ∷ others) = is_conflict top other || has_conflict top others

  -- MatchMetadata once the candidates are in order.
  unfoldable pub match_sorted : List Scored → MatchResult
  match_sorted [] = no_result
  match_sorted (top ∷ others) =
      if ltb_ℤ top.score (pos medium_score) || has_conflict top others
      then no_result
      else if leb_ℤ (pos high_score) top.score
          || has_cross_check top others
          || (top.title_score == weak_exact_score && leb_ℤ (pos weak_exact_score) top.score)
      then record { decision = accepted; candidate = some top.candidate }
      else record { decision = needs_cross_check; candidate = some top.candidate }

  module _ (patterns : Patterns) where
    -- validMetadataRequest
    unfoldable pub is_valid_request : List MetadataCandidate → Fields → Bool
    is_valid_request candidates query_fields =
        (not (is_empty query_fields.title) || not (is_empty query_fields.native))
        && ltb 0 (length candidates)
        && leb (length candidates) max_candidates

    abbrev pub query_fields_of : MetadataQuery → Fields
    query_fields_of query = metadata_fields unicode patterns query.title query.native_title

    -- MatchMetadata
    unfoldable pub match_metadata : MetadataQuery → List MetadataCandidate → MatchResult
    match_metadata query candidates =
        let query_fields = query_fields_of query in
        if is_valid_request candidates query_fields
        then match_sorted (
            sort_by candidate_before
              (score_candidates unicode patterns query query_fields candidates))
        else no_result
