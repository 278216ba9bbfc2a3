-- ===== src/Tests/Home.antt =====
-- The rows of Home over a history of two anime.
use anime_portable.Prelude.{
  ℕ, ◌-◌, ◌≤◌, leb, if◌then◌else◌, In, Str, bytes, str_eq, str_lt, pos, String, ◌≡◌, refl, true,
  false, ◌&&◌, none, some, List, [], ◌∷◌, here,
}
use anime_portable.Views.Data.{History}
use anime_portable.Views.Detail.{resumable}
use anime_portable.Views.Home.{
  TimeParser, finished, is_started, title_of, newer_history, put_newest, newest_of, insert_history,
  sort_history, newest_per_anime, select_home_rows,
}
use anime_portable.Views.Home.Newest.{count, newest_listed}

-- A parser of one digit.
parse_digit : TimeParser
parse_digit [] = none
parse_digit (d ∷ []) = if leb 48 d && leb d 57 then some (d - 48) else none
parse_digit (d ∷ e ∷ rest) = none

abbrev entry_of : String → String → ℕ → String → History
entry_of anime episode position time = record {
  anime_id = bytes anime;
  episode_id = bytes episode;
  episode_number = bytes episode;
  position = pos position;
  duration = pos 100;
  completed = false;
  updated_at = bytes time;
  last_played = bytes time;
}

abbrev history : List History
history =
    entry_of "a" "1" 100 "1"
    ∷ entry_of "b" "1" 40 "2"
    ∷ entry_of "a" "2" 40 "3"
    ∷ entry_of "a" "3" 0 "4"
    ∷ []

a_started : is_started (entry_of "a" "1" 100 "1") ≡ true
unfolding resumable finished
a_started = refl

newest_listed_example :
    let rows = newest_per_anime parse_digit history is_started in
    ((id : Str) → count id rows ≤ 1)
    × (row : History) × In row rows
    × (row.anime_id ≡ bytes "a")
    × (newer_history parse_digit (entry_of "a" "1" 100 "1") row ≡ false)
newest_listed_example =
    newest_listed parse_digit history is_started (entry_of "a" "1" 100 "1") here a_started

-- Episode 3 of the first anime was only opened, so that episode 2 stands for it.
rows_test :
    select_home_rows parse_digit (bytes "?") history [] (pos 6)
    ≡ record { history = entry_of "a" "2" 40 "3"; title = bytes "?" }
      ∷ record { history = entry_of "b" "1" 40 "2"; title = bytes "?" }
      ∷ []
unfolding select_home_rows newest_per_anime newest_of put_newest sort_history insert_history
    newer_history parse_digit title_of resumable finished str_eq str_lt
rows_test = refl
