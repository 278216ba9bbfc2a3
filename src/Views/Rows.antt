-- ===== src/Views/Rows.antt =====
-- apps/desktop/fltkhome/model.go: the rows of the pages of followed anime and of the history, and Home's
-- recent updates. The texts of uitext.T() are a parameter; a text with a verb is a function of what
-- stands for the verb.
pub mod Updates
pub mod Recent
pub mod Position
use anime_portable.Prelude.{
  ℕ, ◌+◌, ◌-◌, ◌/◌, ◌%◌, min, ◌==◌, if◌then◌else◌, Str, str_eq, is_empty, str_lt, trim_space, ℤ,
  pos, pos_part, ◌-ℤ◌, ltb_ℤ, leb_ℤ, seconds, Bool, true, not, ◌&&◌, ◌||◌, Option, none, some, List,
  [], ◌∷◌, ◌++◌, map, digits, sort_by,
}
use anime_portable.Models.{Time}
use anime_portable.Views.Data.{Anime, FollowingItem, History}
use anime_portable.Views.Home.{TimeParser, HomeRow, finished, title_of, newest_per_anime}

pub record Texts : Type 0 where
  pub unknown_number : Str
  pub unknown_title : Str
  pub episode_unknown : Str
  pub today : Str
  pub yesterday : Str
  pub finished_text : Str
  pub not_started : Str
  pub not_watched : Str
  pub no_following : Str
  pub no_recent_updates : Str
  pub episode_number : Str → Str
  pub watched_up_to : Str → Str
  pub last_watched : Str → Str
  pub row_finished : Str → Str
  pub row_position : Str → Str → Str
  pub days_ago_text : Str → Str

-- `"%d:%02d"`
two_digits : ℕ → Str
two_digits n = (0x30 + n / 10) ∷ (0x30 + n % 10) ∷ []

-- formatPosition
unfoldable pub format_position : ℤ → Str
unfolding two_digits
format_position position =
    let seconds = pos_part position / 1000 in
    digits (seconds / 60) ++ 0x3A ∷ two_digits (seconds % 60)

-- `" · "` in UTF-8.
abbrev pub dot : Str
dot = 0x20 ∷ 0xC2 ∷ 0xB7 ∷ 0x20 ∷ []

-- The number of days from a calendar day to another: the hours of a time.Duration, which stops at its
-- bounds, over 24.
abbrev pub days_between : ℤ → ℤ → ℕ
days_between at now = min (pos_part (now -ℤ at)) 106751

pub record FollowingRow : Type 0 where
  pub anime : Anime
  pub status : Str

pub record HistoryRow : Type 0 where
  pub history : History
  pub title : Str
  pub status : Str

-- `known[item.ID] = item` for the whole library, and `known[id]`: the last anime of an ID.
unfoldable pub known_anime : List Anime → Option Anime → Str → Option Anime
known_anime [] found id = found
known_anime (item ∷ library) found id =
    known_anime library (if str_eq item.id id then some item else found) id

-- The order of followingRows: by title, then by ID.
unfoldable pub by_title : FollowingRow → FollowingRow → Bool
by_title a b =
    if not (str_eq a.anime.title b.anime.title)
    then str_lt a.anime.title b.anime.title
    else str_lt a.anime.id b.anime.id

-- `known[item.AnimeID]`, or `backend.Anime{ID: item.AnimeID}`.
abbrev pub known_or : Str → Option Anime → Anime
known_or id none = record { id = id; title = []; native_title = []; description = [] }
known_or id (some anime) = anime

module _ (texts : Texts) where
  -- EpisodeLabel
  unfoldable pub episode_label : Str → Str
  episode_label number =
      let trimmed = trim_space number in
      if is_empty trimmed then texts.episode_unknown else texts.episode_number trimmed

  -- homeCaption
  unfoldable pub home_caption : HomeRow → Str
  home_caption row =
      let trimmed = trim_space row.history.episode_number in
      let number = if is_empty trimmed then texts.unknown_number else trimmed in
      if finished row.history
      then texts.row_finished number
      else texts.row_position number (format_position row.history.position)

  -- historyProgress
  unfoldable pub history_progress : History → Str
  history_progress item =
      if finished item
      then texts.finished_text
      else if leb_ℤ item.position (pos 0)
      then texts.not_started
      else if leb_ℤ item.duration (pos 0)
      then format_position item.position
      else format_position item.position ++ 0x20 ∷ 0x2F ∷ 0x20 ∷ format_position item.duration

  -- The loop of followingStatus.
  unfoldable pub progress_in : FollowingItem → Str → List History → Str
  progress_in item status [] = status
  progress_in item status (entry ∷ history) =
      let rest = progress_in item status history in
      if str_eq entry.anime_id item.anime_id
        && str_eq entry.episode_id item.latest_watched
        && (entry.completed || ltb_ℤ (pos 0) entry.position)
      then status ++ dot ++ history_progress entry
      else rest

  -- followingStatus
  unfoldable pub following_status : FollowingItem → List History → Str
  following_status item history =
      if not item.has_watched
      then texts.not_watched
      else progress_in item (texts.watched_up_to (episode_label item.latest_watched_number)) history

  -- A row of followingRows.
  unfoldable pub following_row : List Anime → List History → FollowingItem → FollowingRow
  following_row library history item =
      let anime = known_or item.anime_id (known_anime library none item.anime_id) in
      let title = trim_space anime.title in
      record {
        anime = record anime { title = if is_empty title then texts.unknown_title else title };
        status = following_status item history;
      }

  -- followingRows
  unfoldable pub following_rows : List FollowingItem → List Anime → List History → List FollowingRow
  following_rows following library history =
      sort_by by_title (map (following_row library history) following)

  -- recentUpdateEmptyText
  unfoldable pub recent_update_empty_text : List FollowingItem → Str
  recent_update_empty_text [] = texts.no_following
  recent_update_empty_text (item ∷ following) = texts.no_recent_updates

  -- `local_day` is the number of the calendar day of a time in the local time zone.
  module _ (parse_time : TimeParser) (local_day : Time → ℤ) where
    -- daysAgo
    unfoldable pub days_ago : Time → Time → Str
    days_ago now at =
        let days = days_between (local_day at) (local_day now) in
        if days == 0
        then texts.today
        else if days == 1
        then texts.yesterday
        else texts.days_ago_text (digits days)

    -- A row of historyRows.
    unfoldable pub history_row : List Anime → Time → History → HistoryRow
    history_row library now item =
        let status = episode_label item.episode_number ++ dot ++ history_progress item in
        let title = title_of library [] item.anime_id in
        record {
          history = item;
          title = if is_empty title then texts.unknown_title else title;
          status = elim (parse_time item.last_played) [
            | none ↦ status
            | some played ↦ status ++ texts.last_watched (days_ago now played)
          ];
        }

    -- historyRows
    unfoldable pub history_rows : List History → List Anime → Time → List HistoryRow
    history_rows history library now =
        map (history_row library now) (newest_per_anime parse_time history (λ item. true))
