-- ===== src/Metadata/Schedule.antt =====
-- core/schedule.go: which anime of the library the entries of a weekly schedule are.
pub mod Tally
pub mod Matched
use anime_portable.Metadata.Names.{compare_key}
use anime_portable.Metadata.Text.{Unicode, Patterns, title_parts}
use anime_portable.Prelude.{
  ℕ, ◌+◌, ltb, if◌then◌else◌, Str, str_eq, is_empty, trim_space, Bool, false, not, ◌||◌, Option,
  none, some, List, [], ◌∷◌, ◌++◌, map, get_key, fields, set_key, rune_count, runes,
}
use anime_portable.Models.{AnimeId, Anime, MetadataRef}

-- ScheduleEntry; `weekday` is a time.Weekday.
pub record ScheduleEntry : Type 0 where
  pub ref : MetadataRef
  pub title : Str
  pub native_title : Str
  pub weekday : ℕ
  pub anime_id : AnimeId

-- `ambiguous`
abbrev pub ambiguous : AnimeId
ambiguous = 0 ∷ []

-- The rest of `add` once the key is there.
unfoldable pub add_key : List (Str × AnimeId) → Str → AnimeId → List (Str × AnimeId)
add_key by_title key id = if is_empty key then by_title else elim (get_key by_title key) [
  | none ↦ set_key by_title key id
  | some existing ↦ set_key by_title key (if str_eq existing id then id else ambiguous)
]

module _ (unicode : Unicode) where
  abbrev contains_han_or_kana : List ℕ → Bool
  contains_han_or_kana [] = false
  contains_han_or_kana (r ∷ rs) = unicode.is_han r || unicode.is_kana r || contains_han_or_kana rs

  -- The part of the title before the first space is its first field, if there is another.
  abbrev first_of_many : List Str → Option Str
  first_of_many [] = none
  first_of_many (word ∷ []) = none
  first_of_many (word ∷ next ∷ words) = some word

  -- ScheduleSearchQuery
  unfoldable pub schedule_search_query : Str → Str
  schedule_search_query title =
      let title = trim_space title in
      elim (first_of_many (fields title)) [
        | none ↦ title
        | some head ↦
            if ltb (rune_count head) 2 || not (contains_han_or_kana (runes head))
            then title
            else head
      ]

  module _ (patterns : Patterns) where
    -- scheduleTitleKey
    unfoldable pub schedule_title_key : Str → Str
    schedule_title_key title = elim (title_parts unicode patterns title) [
      | none ↦ []
      | some (base, season) ↦ if is_empty base then [] else compare_key base ++ 0 ∷ season
    ]

    -- The loop over the library.
    unfoldable pub add_titles : List (Str × AnimeId) → List Anime → List (Str × AnimeId)
    add_titles by_title [] = by_title
    add_titles by_title (anime ∷ library) =
        add_titles
          (add_key (add_key by_title (schedule_title_key anime.title) anime.id)
            (schedule_title_key anime.native_title) anime.id)
          library

    -- The loop over the titles of an entry.
    unfoldable pub find_title : List (Str × AnimeId) → List Str → Option AnimeId
    find_title by_title [] = none
    find_title by_title (title ∷ titles) =
        let later = find_title by_title titles in
        elim (get_key by_title (schedule_title_key title)) [
          | none ↦ later
          | some id ↦ if str_eq id ambiguous then later else some id
        ]

    -- The loop over the entries.
    unfoldable pub match_entry : List (Str × AnimeId) → ScheduleEntry → ScheduleEntry
    match_entry by_title entry =
        if is_empty entry.anime_id
        then elim (find_title by_title (entry.title ∷ entry.native_title ∷ [])) [
          | none ↦ entry
          | some id ↦ record entry { anime_id = id }
        ]
        else entry

    -- MatchSchedule
    unfoldable pub match_schedule : List ScheduleEntry → List Anime → List ScheduleEntry
    match_schedule entries library = map (match_entry (add_titles [] library)) entries
