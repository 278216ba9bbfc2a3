-- ===== src/Tests/Detail.antt =====
-- Detail pages of apps/desktop/fltkhome in which the properties' hypotheses hold.
use anime_portable.Prelude.{
  ◌%◌, get_elem?, In, bytes, str_eq, is_empty, str_lt, pos, String, ◌≡◌, refl, true, false, some,
  List, [], ◌∷◌,
}
use anime_portable.Views.Paging.{clamp_index}
use anime_portable.Effects.{ok}
use anime_portable.Views.Data.{Episode, History, PlayRequest}
use anime_portable.Views.Detail.{
  DetailModel, detail_page_size, open_anime, selected_episode_id, index_of, set_episodes,
  apply_stored, apply_refresh, visible_episodes, select_episode, history_of, resumable, candidate,
  newest, continue_request,
}
use anime_portable.Views.Detail.Selection.{
  DetailAction, stored, refreshes, selects, detail_step, detail_run, selected_visible,
}
use anime_portable.Views.Detail.Requests.{has_episode, IsCandidate, NotOlder, continue_sound}

abbrev episode_of : String → Episode
episode_of id = record { id = bytes id; anime_id = bytes "frieren"; number = bytes id }

abbrev episodes : List Episode
episodes = episode_of "1" ∷ episode_of "2" ∷ []

abbrev more_episodes : List Episode
more_episodes = episode_of "3" ∷ episode_of "2" ∷ episode_of "1" ∷ []

abbrev history_at : String → String → History
history_at id time = record {
  anime_id = bytes "frieren";
  episode_id = bytes id;
  episode_number = bytes id;
  position = pos 60000;
  duration = pos 1440000;
  completed = false;
  updated_at = bytes time;
  last_played = bytes time;
}

-- Episode 2 is selected; it was played a tenth of a second after episode 1.
abbrev detail : DetailModel
detail = record {
  anime_id = bytes "frieren";
  episodes = episodes;
  history = history_at "1" "2026-01-02T03:04:05Z" ∷ history_at "2" "2026-01-02T03:04:05.1Z" ∷ [];
  selected = 1;
  page = 0;
  refreshed = false;
}

abbrev empty_detail : DetailModel
empty_detail = record detail { episodes = []; history = []; selected = 0 }

abbrev opening : List DetailAction
opening = stored episodes ∷ selects (pos 1) ∷ refreshes (ok more_episodes) ∷ []

opened-selected :
    get_elem?
      (detail_run (open_anime detail (bytes "frieren")) opening).episodes
      (detail_run (open_anime detail (bytes "frieren")) opening).selected
    ≡ some (episode_of "2")
unfolding detail_run detail_step open_anime apply_stored apply_refresh set_episodes select_episode
    selected_episode_id index_of str_eq clamp_index
opened-selected = refl

selected_visible_example :
    let s = detail_run (open_anime detail (bytes "frieren")) opening in
    get_elem? (visible_episodes s) (s.selected % detail_page_size) ≡ some (episode_of "2")
selected_visible_example =
    selected_visible detail (bytes "frieren") opening (episode_of "2") opened-selected

some_id : is_empty (selected_episode_id detail) ≡ false
unfolding selected_episode_id
some_id = refl

still_there : has_episode (selected_episode_id detail) more_episodes ≡ true
unfolding selected_episode_id has_episode str_eq
still_there = refl

-- The entry without a fraction of a second counts as the newer one.
abbrev continued : PlayRequest
continued = record {
  anime_id = bytes "frieren";
  episode_id = bytes "1";
  start_at = pos 60000;
  paused = false;
}

continued-eq : continue_request detail ≡ some continued
unfolding continue_request newest candidate history_of resumable str_eq str_lt
continued-eq = refl

continue_sound_example :
    (item : History) × IsCandidate detail item
    × (continued.anime_id ≡ detail.anime_id)
    × (continued.episode_id ≡ item.episode_id)
    × (continued.start_at ≡ item.position)
    × ((e : Episode) (other : History)
        → In e detail.episodes
        → candidate detail e ≡ some other
        → NotOlder item other)
continue_sound_example = continue_sound detail continued continued-eq
