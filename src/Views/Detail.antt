-- ===== src/Views/Detail.antt =====
-- apps/desktop/fltkhome/detail_model.go: detailModel, the episodes of one anime.
pub mod Selection
pub mod Requests
use anime_portable.Prelude.{
  ℕ, ◌+◌, ◌*◌, ◌/◌, ◌==◌, if◌then◌else◌, length, get_elem?, take, drop, Str, str_eq, is_empty,
  str_lt, ℤ, pos, ◌+ℤ◌, ltb_ℤ, leb_ℤ, eq_ℤ, Bool, true, false, not, ◌&&◌, ◌||◌, Option, none, some,
  List, [], ◌∷◌,
}
use anime_portable.Effects.{Result, ok, failed}
use anime_portable.Views.Data.{Episode, History, PlayRequest}
use anime_portable.Views.Paging.{clamp_index, moved_page}

-- detailEpisodePageSize
abbrev pub detail_page_size : ℕ
detail_page_size = 8

-- detailModel; the history is the list of its map's values, one for each episode ID.
pub record DetailModel : Type 0 where
  pub anime_id : Str
  pub episodes : List Episode
  pub history : List History
  pub selected : ℕ
  pub page : ℕ
  pub refreshed : Bool

-- `id` of the episode at an index, "" out of range.
id_of : Option Episode → Str
id_of none = []
id_of (some episode) = episode.id

-- open; close is `open("")`.
unfoldable pub open_anime : DetailModel → Str → DetailModel
open_anime m anime_id = record {
  anime_id = anime_id;
  episodes = [];
  history = [];
  selected = 0;
  page = 0;
  refreshed = false;
}

-- selectedEpisodeID
unfoldable pub selected_episode_id : DetailModel → Str
unfolding id_of
selected_episode_id m = id_of (get_elem? m.episodes m.selected)

-- The index of the first episode with an ID, 0 if there is none.
unfoldable pub index_of : Str → List Episode → ℕ → ℕ
index_of id [] index = 0
index_of id (episode ∷ episodes) index =
    let rest = index_of id episodes (index + 1) in if str_eq episode.id id then index else rest

-- setEpisodes
unfoldable pub set_episodes : DetailModel → List Episode → DetailModel
set_episodes m episodes =
    let selected_id = selected_episode_id m in
    let selected = if is_empty selected_id then 0 else index_of selected_id episodes 0 in
    record m { episodes = episodes; selected = selected; page = selected / detail_page_size }

-- applyStored
unfoldable pub apply_stored : DetailModel → List Episode → DetailModel × Bool
apply_stored m episodes =
    if m.refreshed || (length episodes == 0) then (m, false) else (set_episodes m episodes, true)

-- applyRefresh
unfoldable pub apply_refresh : DetailModel → Result (List Episode) → DetailModel × Bool
apply_refresh m (failed e) = (record m { refreshed = true }, length m.episodes == 0)
apply_refresh m (ok episodes) = (set_episodes (record m { refreshed = true }) episodes, false)

-- `history[item.EpisodeID] = item`
unfoldable pub put_history : List History → History → List History
put_history [] item = item ∷ []
put_history (old ∷ olds) item =
    let rest = put_history olds item in
    if str_eq old.episode_id item.episode_id then item ∷ olds else old ∷ rest

put_histories : Str → List History → List History → List History
put_histories anime_id by_id [] = by_id
put_histories anime_id by_id (item ∷ items) =
    put_histories anime_id
      (if str_eq item.anime_id anime_id && not (is_empty item.episode_id)
        then put_history by_id item
        else by_id)
      items

-- setHistory
unfoldable pub set_history : DetailModel → List History → DetailModel
unfolding put_histories
set_history m items = record m { history = put_histories m.anime_id [] items }

-- `history[id]`
unfoldable pub history_of : List History → Str → Option History
history_of [] id = none
history_of (item ∷ items) id =
    let rest = history_of items id in if str_eq item.episode_id id then some item else rest

-- visibleEpisodes
unfoldable pub visible_episodes : DetailModel → List Episode
visible_episodes m = take detail_page_size (drop (m.page * detail_page_size) m.episodes)

-- selectEpisode
unfoldable pub select_episode : DetailModel → ℤ → DetailModel
select_episode m index =
    let selected = clamp_index (length m.episodes) index in
    if length m.episodes == 0
    then record m { selected = 0; page = 0 }
    else record m { selected = selected; page = selected / detail_page_size }

-- moveSelection
unfoldable pub detail_move_selection : DetailModel → ℤ → DetailModel
detail_move_selection m delta = select_episode m (pos m.selected +ℤ delta)

-- movePage
unfoldable pub detail_move_page : DetailModel → ℤ → DetailModel
detail_move_page m delta =
    let page = moved_page m.page delta (length m.episodes) detail_page_size in
    if (length m.episodes == 0) || eq_ℤ delta (pos 0)
    then m
    else record m { page = page; selected = page * detail_page_size }

-- The test of an episode that playRequest and continueRequest share: it has an ID, and it is of no
-- other anime.
abbrev pub is_playable : DetailModel → Episode → Bool
is_playable m episode =
    not (is_empty episode.id) && (is_empty episode.anime_id || str_eq episode.anime_id m.anime_id)

-- playRequest
unfoldable pub play_request : DetailModel → Option PlayRequest
play_request m = elim (get_elem? m.episodes m.selected) [
  | none ↦ none
  | some episode ↦
      if is_empty m.anime_id || not (is_playable m episode)
      then none
      else some (record {
        anime_id = m.anime_id;
        episode_id = episode.id;
        start_at = pos 0;
        paused = false;
      })
]

-- resumable of model.go
unfoldable pub resumable : History → Bool
resumable item =
    not item.completed
    && ltb_ℤ (pos 0) item.position
    && (leb_ℤ item.duration (pos 0) || ltb_ℤ item.position item.duration)

-- historyOrder
abbrev pub history_order : History → Str
history_order item = if is_empty item.updated_at then item.last_played else item.updated_at

-- The history of an episode that continueRequest does not pass over.
unfoldable pub candidate : DetailModel → Episode → Option History
candidate m episode = elim (history_of m.history episode.id) [
  | none ↦ none
  | some item ↦ if is_playable m episode && resumable item then some item else none
]

newer : Option History → Option History → Option History
newer selected none = selected
newer none (some item) = some item
newer (some selected) (some item) =
    if str_lt (history_order selected) (history_order item) then some item else some selected

-- The loop of continueRequest.
unfoldable pub newest : DetailModel → List Episode → Option History → Option History
unfolding newer
newest m [] selected = selected
newest m (episode ∷ episodes) selected = newest m episodes (newer selected (candidate m episode))

-- continueRequest
unfoldable pub continue_request : DetailModel → Option PlayRequest
continue_request m = elim (newest m m.episodes none) [
  | none ↦ none
  | some item ↦
      if is_empty m.anime_id
      then none
      else some (record {
        anime_id = m.anime_id;
        episode_id = item.episode_id;
        start_at = item.position;
        paused = false;
      })
]
