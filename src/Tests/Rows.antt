-- ===== src/Tests/Rows.antt =====
-- The rows of Home and their texts at concrete inputs.
use anime_portable.Prelude.{
  ◌-◌, ◌≤◌, leb, if◌then◌else◌, length, All, bytes, str_eq, str_lt, trim_space, pos, ◌-ℤ◌, String,
  ◌≡◌, refl, Bool, true, false, ◌&&◌, none, some, List, [], ◌∷◌, ◌++◌, map, Descends, sort_by,
  insert_by, get_key, set_key, digits,
}
use anime_portable.Views.Data.{FollowingItem}
use anime_portable.Views.Home.{TimeParser, finished}
use anime_portable.Views.Rows.{
  FollowingRow, Texts, format_position, following_rows, by_title, following_row, known_anime,
  episode_label, days_ago, following_status, history_progress, progress_in,
}
use anime_portable.Views.Rows.Updates.{recent_update_rows, note_updates, note_update, recent_row}
use anime_portable.Views.Rows.Recent.{IsRecentRow, IsNoLater, recent_updates_listed}
use anime_portable.Views.Rows.Position.{read_position, position_shown}

-- A parser of one digit.
digit_time : TimeParser
digit_time [] = none
digit_time (d ∷ []) = if leb 48 d && leb d 57 then some (d - 48) else none
digit_time (d ∷ e ∷ rest) = none

abbrev english : Texts
english = record {
  unknown_number = bytes "Unknown";
  unknown_title = bytes "Unknown title";
  episode_unknown = bytes "Episode unknown";
  today = bytes "Today";
  yesterday = bytes "Yesterday";
  finished_text = bytes "Finished";
  not_started = bytes "Not started";
  not_watched = bytes "Not watched";
  no_following = bytes "Nothing followed";
  no_recent_updates = bytes "No updates";
  episode_number = λ n. bytes "Ep. " ++ n;
  watched_up_to = λ n. bytes "Watched: " ++ n;
  last_watched = λ n. bytes "Last watched: " ++ n;
  row_finished = λ n. n;
  row_position = λ n p. n ++ p;
  days_ago_text = λ n. n ++ bytes " days ago";
}

abbrev followed : String → Bool → String → FollowingItem
followed id updated seen = record {
  anime_id = bytes id;
  latest_available = [];
  latest_available_number = bytes "3";
  latest_watched = [];
  latest_watched_number = [];
  has_available = true;
  has_watched = false;
  new_episode = false;
  recently_updated = updated;
  latest_seen_at = bytes seen;
}

abbrev all_followed : List FollowingItem
all_followed = followed "a" true "4" ∷ followed "b" true "7" ∷ followed "c" false "8" ∷ []

abbrev recent : List FollowingRow
recent = recent_update_rows english digit_time pos all_followed [] 6 8

-- The newest sighting comes first, and what is not marked is left out.
recent_test : map (λ row. row.anime.id) recent ≡ bytes "b" ∷ bytes "a" ∷ []
unfolding recent_update_rows sort_by following_rows note_updates note_update digit_time insert_by
    by_title str_eq following_row trim_space known_anime str_lt get_key set_key recent_row
recent_test = refl

recent_status :
    map (λ row. row.status) recent
    ≡ (bytes "Ep. 3" ++ 0x20 ∷ 0xC2 ∷ 0xB7 ∷ 0x20 ∷ bytes "Yesterday")
      ∷ (bytes "Ep. 3" ++ 0x20 ∷ 0xC2 ∷ 0xB7 ∷ 0x20 ∷ bytes "4 days ago")
      ∷ []
unfolding recent_update_rows sort_by following_rows note_updates note_update digit_time insert_by
    by_title str_eq following_row trim_space known_anime str_lt get_key set_key recent_row
    episode_label days_ago digits ◌-ℤ◌ finished following_status format_position history_progress
    progress_in
recent_status = refl

recent_updates_listed_example :
    (length recent ≤ 6)
    × All (IsRecentRow digit_time all_followed) recent
    × Descends (IsNoLater digit_time all_followed) recent
recent_updates_listed_example = recent_updates_listed digit_time english pos all_followed [] 6 8

position_test : format_position (pos 1439999) ≡ bytes "23:59"
unfolding format_position digits
position_test = refl

position_shown_example : read_position 0 (format_position (pos 1439999)) ≡ 1439
position_shown_example = position_shown (pos 1439999)
