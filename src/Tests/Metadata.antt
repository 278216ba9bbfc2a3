-- ===== src/Tests/Metadata.antt =====
-- The matching of core/metadata_match.go on one anime and two providers.
use anime_portable.Metadata.Match.Evidence.{Evidence, match-Evidence}
use anime_portable.Metadata.Match.Accepted.{IsAccepted, match_sound}
use anime_portable.Metadata.Names.Symmetric.{HasSubtitle, text_score_comm}
use anime_portable.Metadata.Text.Stripped.{Shortens, strip_settles, IsShortening}
use anime_portable.Metadata.Names.{
  compare_key, cut_subtitle, kept_words, mains_contain, name_match, particle_match,
  subtitles_differ, text_score, without_particles,
}
use anime_portable.Metadata.Score.{
  score_candidates, score_all, add_name, add_series_names, aliases_of, best_of_aliases,
  best_of_titles, best_title_score, candidate_title_score, count_hint, has_query_alias, hint_score,
  metadata_aliases, season_hint, series_match, series_names, year_hint, Scored,
}
use anime_portable.Metadata.Text.{
  Unicode, Patterns, metadata_fields, title_parts, split_title, normalize_text, normalize_runes,
  fold_to_simplified, take_arc, take_subtitle, strip_suffixes, strip_once, replace_all,
  season_after, season_at_end, season_before_part, season_from_title, season_number, season_numeral,
}
use anime_portable.Metadata.Match.{
  match_metadata, is_valid_request, accepted, match_sorted, candidate_before, equivalent_candidates,
  has_conflict, has_cross_check, is_conflict, is_cross_check, is_numeric_id, is_special_arc,
  provider_rank, ref_before, same_provider, same_season_arcs, query_fields_of, MatchResult,
}
use anime_portable.Prelude.{
  Str, bytes, str_eq, str_lt, trim_space, pos, ◌+ℤ◌, ◌-ℤ◌, ◌≡◌, refl, false, none, some, [], ◌∷◌,
  is_valid_utf8, rune_count, is_space_rune, sort_by, insert_by, contains, has_prefix, fields, runes,
  ◌++◌, arith, inl, In, inr, is_empty, ap,
}
use anime_portable.Models.{MetadataQuery, MetadataCandidate}

abbrev pub unicode : Unicode
unicode = record {
  nfkc = λ s. s;
  lower = λ s. s;
  equal_fold = str_eq;
  is_punct = λ r. false;
  is_symbol = λ r. false;
  is_han = λ r. false;
  is_kana = λ r. false;
  simplified = λ r. r;
}

abbrev pub patterns : Patterns
patterns = record {
  episode_suffixes = [];
  find_subtitle = λ s. none;
  space_roman = λ s. s;
  find_mid_season = λ s. none;
  is_part_marker = λ s. false;
  find_bracketed = λ s. none;
  season_before_part_suffixes = [];
  season_suffixes = [];
}

abbrev pub query : MetadataQuery
query = record {
  title = bytes "frieren";
  native_title = [];
  year = pos 2023;
  episode_count = pos 28;
}

abbrev pub candidate : MetadataCandidate
candidate = record {
  ref = record { provider = bytes "bangumi"; id = bytes "40" };
  title = bytes "frieren";
  native_title = [];
  aliases = [];
  year = pos 2023;
  episode_count = pos 28;
}

pub match_test :
    match_metadata unicode patterns query (candidate ∷ [])
    ≡ record { decision = accepted; candidate = some candidate }
unfolding match_metadata is_valid_request metadata_fields title_parts split_title is_valid_utf8
    rune_count normalize_text trim_space normalize_runes fold_to_simplified take_arc take_subtitle
    strip_suffixes str_eq strip_once replace_all is_space_rune match_sorted sort_by score_candidates
    score_all candidate_before equivalent_candidates has_conflict has_cross_check is_conflict
    is_cross_check is_numeric_id is_special_arc provider_rank ref_before same_provider
    same_season_arcs compare_key cut_subtitle kept_words mains_contain name_match particle_match
    subtitles_differ text_score without_particles add_name add_series_names aliases_of
    best_of_aliases best_of_titles best_title_score candidate_title_score count_hint has_query_alias
    hint_score metadata_aliases season_hint series_match series_names year_hint season_after
    season_at_end season_before_part season_from_title season_number season_numeral ◌+ℤ◌ ◌-ℤ◌
    insert_by contains has_prefix str_lt fields runes
match_test = refl

match_sound_example :
    (top : Scored) × IsAccepted unicode
      (score_candidates unicode patterns query
        (query_fields_of unicode patterns query)
        (candidate ∷ []))
      top
    × ((match_metadata unicode patterns query (candidate ∷ [])).candidate ≡ some top.candidate)
match_sound_example =
    match_sound unicode patterns query (candidate ∷ [])
      (ap (λ (r : MatchResult). r.decision) match_test)

match-Evidence_example :
    (top : Scored) × ((match_metadata unicode patterns query (candidate ∷ [])).candidate
      ≡ some top.candidate)
    × In top.candidate (candidate ∷ [])
    × (is_empty (trim_space top.candidate.ref.provider) ≡ false)
    × (is_empty (trim_space top.candidate.ref.id) ≡ false)
    × Evidence unicode patterns query top (
        score_candidates unicode patterns query
          (query_fields_of unicode patterns query)
          (candidate ∷ []))
match-Evidence_example =
    match-Evidence unicode patterns query (candidate ∷ [])
      (ap (λ (r : MatchResult). r.decision) match_test)

abbrev with_aside : Str → Str → Str
with_aside main aside = main ++ 0x1f ∷ aside

first-HasSubtitle : HasSubtitle (with_aside (bytes "re zero") (bytes "memory snow"))
unfolding compare_key cut_subtitle kept_words fields str_eq
first-HasSubtitle = record { keyed = refl }

second-HasSubtitle : HasSubtitle (bytes "re zero")
unfolding compare_key cut_subtitle kept_words fields
second-HasSubtitle = record { keyed = refl }

text_score_comm_example :
    text_score (with_aside (bytes "re zero") (bytes "memory snow")) (bytes "re zero")
    ≡ text_score (bytes "re zero") (with_aside (bytes "re zero") (bytes "memory snow"))
text_score_comm_example =
    text_score_comm (with_aside (bytes "re zero") (bytes "memory snow")) (bytes "re zero")
      first-HasSubtitle second-HasSubtitle

-- Two patterns that take the whole text.
abbrev short_patterns : Patterns
short_patterns = record patterns {
  episode_suffixes = (λ (s : Str). []) ∷ [];
  season_suffixes = record { groups = λ s. none; replaced = λ s. [] } ∷ [];
}

nothing-Shortens : Shortens (λ (s : Str). [])
nothing-Shortens [] = inl refl
nothing-Shortens (x ∷ s) = inr (omega arith)

short-IsShortening : IsShortening unicode short_patterns
short-IsShortening = record { episodes = (nothing-Shortens, tt); seasons = (nothing-Shortens, tt) }

strip_settles_example :
    let result = strip_suffixes unicode short_patterns 8 (bytes "frieren") [] in
    (strip_once unicode short_patterns result.0 ≡ result.0)
    × (strip_suffixes unicode short_patterns 10 (bytes "frieren") [] ≡ result)
strip_settles_example =
    strip_settles unicode short_patterns (bytes "frieren") [] 10 short-IsShortening (omega arith)
