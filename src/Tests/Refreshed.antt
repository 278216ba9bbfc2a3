-- ===== src/Tests/Refreshed.antt =====
-- A refresh, a schedule and an opening over ports that count their calls.
use anime_portable.Library.Opening.{
  choose_opening, consider_openings, consider_opening, is_valid_opening, gap,
}
use anime_portable.Library.Opening.Found.{IsFound, opening-IsFound}
use anime_portable.Library.Opening.Find.{
  find_opening, OpeningSource, opening_number, find_numbered, whole_episode_number, one_whole,
  whole_value,
}
use anime_portable.Library.Numbers.{FloatParser, nan, finite, episode_number_value}
use anime_portable.Metadata.Names.{compare_key, kept_words}
use anime_portable.Metadata.Text.{
  title_parts, split_title, normalize_text, normalize_runes, fold_to_simplified, take_arc,
  take_subtitle, strip_suffixes, replace_all, season_after, season_at_end, season_before_part,
  season_from_title, season_number, season_numeral, strip_once,
}
use anime_portable.Metadata.Match.{query_fields_of}
use anime_portable.Metadata.Score.{series_names}
use anime_portable.Metadata.Schedule.Matched.{NamedBy, entry_matched}
use anime_portable.Tests.App.{host, source, counted}
use anime_portable.Tests.Metadata.{unicode, candidate, patterns, query}
use anime_portable.Host.{Host}
use anime_portable.Metadata.Refresh.Listed.{Extends, season-Extends}
use anime_portable.Metadata.Refresh.{Provider, add_season_candidates}
use anime_portable.Metadata.Schedule.{
  ScheduleEntry, match_entry, add_titles, find_title, add_key, schedule_title_key,
}
use anime_portable.Metadata.Schedule.Tally.{IsId}
use anime_portable.Prelude.{
  ℕ, ◌-◌, ◌*◌, ◌≤◌, leb, if◌then◌else◌, All, bytes, str_eq, trim_space, pos, seconds, ◌≡◌, refl,
  ◌⊎◌, true, false, ◌&&◌, none, some, List, [], ◌∷◌, get_key, is_valid_utf8, rune_count, set_key,
  fields, is_space_rune, runes, ◌-ℤ◌,
}
use anime_portable.Models.{AnimeId, Anime, AnimeMetadata, EpisodeMapping}
use anime_portable.Effects.{ok}

abbrev metadata : AnimeMetadata
metadata = record {
  ref = record { provider = bytes "bangumi"; id = bytes "40" };
  title = bytes "Frieren";
  native_title = [];
  description = [];
  cover_url = [];
  season = [];
  year = pos 2023;
  studio = [];
  episode_count = pos 28;
}

abbrev provider : Provider ℕ
provider = record {
  search = λ q. counted (candidate ∷ []);
  get = λ r. counted metadata;
  browse = none;
}

abbrev stored : Anime
stored = record {
  id = bytes "a";
  title = bytes "frieren";
  native_title = [];
  description = [];
  catalog = record { year = pos 2023; airing_season = []; episode_count = pos 28 };
}

abbrev app : Host
app = record (host (ok source)) { anime = λ id. counted stored }

abbrev browser : Provider ℕ
browser = record provider { browse = some (λ year season. counted (candidate ∷ [])) }

season-Extends_example :
    Extends unicode patterns query
      (series_names unicode patterns
        (query_fields_of unicode patterns query).title
        (query_fields_of unicode patterns query).native
        [])
      []
      (add_season_candidates unicode patterns query
        (record { year = pos 2023; airing_season = bytes "fall"; episode_count = pos 28 })
        (browser ∷ [])
        (record { candidates = []; sources = []; failures = 0 })
        0).0.candidates
season-Extends_example =
    season-Extends unicode patterns query
      (record { year = pos 2023; airing_season = bytes "fall"; episode_count = pos 28 })
      (browser ∷ []) (record { candidates = []; sources = []; failures = 0 }) 0

abbrev library : List Anime
library = stored ∷ []

abbrev entry : ScheduleEntry
entry = record {
  ref = record { provider = bytes "bangumi"; id = bytes "40" };
  title = bytes "frieren";
  native_title = [];
  weekday = 5;
  anime_id = [];
}

library-IsId : All (λ (a : Anime). IsId a.id) library
unfolding str_eq
library-IsId = (refl, tt)

entry_matched_example :
    let matched = match_entry unicode patterns (add_titles unicode patterns [] library) entry in
    ((matched ≡ entry)
      ⊎ ((id : AnimeId) × (matched ≡ record entry { anime_id = id })
          × (NamedBy unicode patterns library entry.title id
              ⊎ NamedBy unicode patterns library entry.native_title id)))
    × ((id : AnimeId) → NamedBy unicode patterns library entry.title id → matched.anime_id ≡ id)
entry_matched_example = entry_matched unicode patterns library entry library-IsId refl

entry_test :
    (match_entry unicode patterns (add_titles unicode patterns [] library) entry).anime_id
    ≡ bytes "a"
unfolding match_entry find_title get_key add_titles add_key schedule_title_key title_parts
    is_valid_utf8 rune_count split_title normalize_text trim_space normalize_runes
    fold_to_simplified take_arc take_subtitle strip_suffixes str_eq compare_key kept_words
    replace_all season_after season_at_end season_before_part season_from_title season_number
    season_numeral strip_once set_key fields is_space_rune runes
entry_test = refl

parse_digit : FloatParser
parse_digit [] = (nan, false)
parse_digit (d ∷ []) =
    if leb 48 d && leb d 57 then (finite (pos ((d - 48) * one_whole)), true) else (nan, false)
parse_digit (d ∷ e ∷ rest) = (nan, false)

abbrev mapped : Host
mapped = record app {
  episode_mappings = λ id. counted (
      record {
        anime_id = bytes "a";
        episode_id = bytes "e3";
        ref = record { anime = record { provider = []; id = [] }; id = [] };
        number = bytes "3";
        first_seen_at = 0;
      }
      ∷ []);
}

abbrev openings : OpeningSource ℕ
openings = record {
  openings = λ id number length. counted (
      record {
        opening = record { start = seconds 60; end = seconds 150 };
        episode_length = seconds 1440;
      }
      ∷ []);
}

found_test :
    find_opening mapped parse_digit (bytes "a") (bytes "e3") (pos 52991) (seconds 1441) openings 0
    ≡ (ok (record { start = seconds 60; end = seconds 150 }, true), 2)
unfolding find_opening find_numbered opening_number whole_episode_number whole_value
    episode_number_value parse_digit choose_opening consider_openings consider_opening
    is_valid_opening gap counted str_eq trim_space ◌-ℤ◌
found_test = refl

opening-IsFound_example :
    (mappings : List EpisodeMapping) × (w1 : ℕ) × (w2 : ℕ) × (mapped.episode_mappings (bytes "a") w1
      ≡ (ok mappings, w2))
    × (1 ≤ opening_number parse_digit mappings (bytes "e3"))
    × IsFound mapped 52991
        (opening_number parse_digit mappings (bytes "e3"))
        (seconds 1441)
        openings
        (record { start = seconds 60; end = seconds 150 })
        2
opening-IsFound_example =
    opening-IsFound mapped parse_digit (bytes "a") (bytes "e3") (pos 52991) (seconds 1441) openings
      (record { start = seconds 60; end = seconds 150 }) 0 2 found_test
