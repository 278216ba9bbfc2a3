-- ===== src/Views/Home.antt =====
-- apps/desktop/fltkhome/model.go: the entries of the history that Home and the history page list.
-- time.Parse is a parameter: the time of a text in RFC 3339, none for an error.
pub mod Covers
pub mod Newest
use anime_portable.Prelude.{
  ltb, ◌==◌, if◌then◌else◌, take, Str, str_eq, is_empty, str_lt, trim_space, ℤ, pos, pos_part,
  ltb_ℤ, leb_ℤ, Bool, true, false, not, ◌&&◌, ◌||◌, Option, none, some, List, [], ◌∷◌, map,
}
use anime_portable.Models.{Time}
use anime_portable.Views.Data.{Anime, History}
use anime_portable.Views.Detail.{resumable}

abbrev pub TimeParser : Type 0
TimeParser = Str → Option Time

pub record HomeRow : Type 0 where
  pub history : History
  pub title : Str

-- finished
unfoldable pub finished : History → Bool
finished item = item.completed || (ltb_ℤ (pos 0) item.duration && leb_ℤ item.duration item.position)

-- What Home lists: `resumable(item) || finished(item)`.
abbrev pub is_started : History → Bool
is_started item = resumable item || finished item

-- The end of newerHistory, for entries of one time.
abbrev pub newer_by_id : History → History → Bool
newer_by_id left right =
    if not (str_eq left.episode_id right.episode_id)
    then str_lt right.episode_id left.episode_id
    else str_lt right.anime_id left.anime_id

newer_at : Option Time → Option Time → History → History → Bool
newer_at (some a) (some b) left right = if not (a == b) then ltb b a else newer_by_id left right
newer_at (some a) none left right = true
newer_at none (some b) left right = false
newer_at none none left right =
    if not (str_eq left.last_played right.last_played)
    then str_lt right.last_played left.last_played
    else newer_by_id left right

-- titles[id] of animeTitles: the last title with an ID, without its spaces; "" for a missing key.
unfoldable pub title_of : List Anime → Str → Str → Str
title_of [] found id = found
title_of (item ∷ library) found id =
    title_of library (if str_eq item.id id then trim_space item.title else found) id

module _ (parse_time : TimeParser) where
  -- newerHistory
  unfoldable pub newer_history : History → History → Bool
  unfolding newer_at
  newer_history left right =
      newer_at (parse_time left.last_played) (parse_time right.last_played) left right

  -- `newest[item.AnimeID] = item` if there is none, or if the item is newer.
  unfoldable pub put_newest : List History → History → List History
  put_newest [] item = item ∷ []
  put_newest (old ∷ olds) item =
      let rest = put_newest olds item in
      if str_eq old.anime_id item.anime_id
      then (if newer_history item old then item else old) ∷ olds
      else old ∷ rest

  -- The first loop of newestPerAnime.
  unfoldable pub newest_of : (History → Bool) → List History → List History → List History
  newest_of include newest [] = newest
  newest_of include newest (item ∷ history) =
      newest_of include (if include item then put_newest newest item else newest) history

  unfoldable pub insert_history : History → List History → List History
  insert_history item [] = item ∷ []
  insert_history item (x ∷ xs) =
      let rest = insert_history item xs in if newer_history x item then x ∷ rest else item ∷ x ∷ xs

  unfoldable pub sort_history : List History → List History
  sort_history [] = []
  sort_history (x ∷ xs) = insert_history x (sort_history xs)

  -- newestPerAnime
  unfoldable pub newest_per_anime : List History → (History → Bool) → List History
  newest_per_anime history include = sort_history (newest_of include [] history)

  -- selectHomeRows; `unknown` is the text for an anime without a title.
  unfoldable pub select_home_rows : Str → List History → List Anime → ℤ → List HomeRow
  select_home_rows unknown history library limit =
      let titled : History → HomeRow = λ item.
        let title = title_of library [] item.anime_id in
        record { history = item; title = if is_empty title then unknown else title } in
      if ltb_ℤ limit (pos 1)
      then []
      else map titled (take (pos_part limit) (newest_per_anime history is_started))
