-- ===== src/Views/Detail/Selection.antt =====
-- Where the detail page stands in its list of episodes.
use anime_portable.Prelude.{
  ℕ, ◌+◌, ◌-◌, ◌*◌, ◌/◌, ◌%◌, ◌≤◌, length, get_elem?, drop, Str, ℤ, pos, ◌+ℤ◌, ◌≡◌, ap, ◌∙◌, true,
  some, List, [], ◌∷◌, arith, get_elem?-take, get_elem?-drop,
}
use anime_portable.Effects.{Result, ok, failed}
use anime_portable.Views.Data.{Episode, History}
use anime_portable.Views.Paging.{clamp_index-le, moved_page, moved_page_bounds}
use anime_portable.Views.Detail.{
  DetailModel, detail_page_size, open_anime, selected_episode_id, index_of, set_episodes,
  apply_stored, apply_refresh, set_history, visible_episodes, select_episode, detail_move_selection,
  detail_move_page,
}

-- The selection is in the list and on the page in sight.
pub record IsPlaced (m : DetailModel) : Type 0 where
  pub on_page : m.page ≡ m.selected / detail_page_size
  pub in_range : m.selected ≤ length m.episodes - 1

pub data DetailAction : Type 0 where
  opens : Str → DetailAction
  stored : List Episode → DetailAction
  refreshes : Result (List Episode) → DetailAction
  histories : List History → DetailAction
  selects moves pages : ℤ → DetailAction

unfoldable pub detail_step : DetailModel → DetailAction → DetailModel
detail_step m (opens anime_id) = open_anime m anime_id
detail_step m (stored episodes) = (apply_stored m episodes).0
detail_step m (refreshes answer) = (apply_refresh m answer).0
detail_step m (histories items) = set_history m items
detail_step m (selects index) = select_episode m index
detail_step m (moves delta) = detail_move_selection m delta
detail_step m (pages delta) = detail_move_page m delta

unfoldable pub detail_run : DetailModel → List DetailAction → DetailModel
detail_run m [] = m
detail_run m (action ∷ actions) = detail_run (detail_step m action) actions

index_of_le :
    (id : Str) (episodes : List Episode) (index : ℕ)
    → index_of id episodes index ≤ index + (length episodes - 1)
unfolding index_of
index_of_le id [] index = omega arith
index_of_le id (episode ∷ []) index = ground arith
index_of_le id (episode ∷ e ∷ episodes) index =
    ground (arith, index_of_le id (e ∷ episodes) (index + 1))

set_episodes-IsPlaced :
    (m : DetailModel) (episodes : List Episode) → IsPlaced (set_episodes m episodes)
unfolding set_episodes
set_episodes-IsPlaced m episodes = ground (arith, index_of_le (selected_episode_id m) episodes 0)

select_episode-IsPlaced : (m : DetailModel) (index : ℤ) → IsPlaced (select_episode m index)
unfolding select_episode
select_episode-IsPlaced m index = ground (arith, clamp_index-le (length m.episodes) index)

mul-div_eight : (p : ℕ) → p * 8 / 8 ≡ p
mul-div_eight p = omega arith

detail_move_page-IsPlaced :
    (m : DetailModel) (delta : ℤ) → IsPlaced m → IsPlaced (detail_move_page m delta)
unfolding detail_move_page
detail_move_page-IsPlaced m delta h =
    let p = moved_page m.page delta (length m.episodes) 8 in
    ground (
      arith,
      h.on_page,
      h.in_range,
      mul-div_eight p,
      moved_page_bounds m.page delta (length m.episodes) 8,
    )

detail_step-IsPlaced :
    (m : DetailModel) (action : DetailAction) → IsPlaced m → IsPlaced (detail_step m action)
unfolding detail_step open_anime apply_stored apply_refresh set_history detail_move_selection
detail_step-IsPlaced m (opens anime_id) h = ground arith
detail_step-IsPlaced m (stored episodes) h = ground (arith, h, set_episodes-IsPlaced m episodes)
detail_step-IsPlaced m (refreshes (failed e)) h = ground (arith, h)
detail_step-IsPlaced m (refreshes (ok episodes)) h =
    set_episodes-IsPlaced (record m { refreshed = true }) episodes
detail_step-IsPlaced m (histories items) h = ground (arith, h)
detail_step-IsPlaced m (selects index) h = select_episode-IsPlaced m index
detail_step-IsPlaced m (moves delta) h = select_episode-IsPlaced m (pos m.selected +ℤ delta)
detail_step-IsPlaced m (pages delta) h = detail_move_page-IsPlaced m delta h

detail_run-IsPlaced :
    (m : DetailModel) (actions : List DetailAction) → IsPlaced m → IsPlaced (detail_run m actions)
unfolding detail_run
detail_run-IsPlaced m [] h = h
detail_run-IsPlaced m (action ∷ actions) h =
    detail_run-IsPlaced (detail_step m action) actions (detail_step-IsPlaced m action h)

open_anime-IsPlaced : (m : DetailModel) (anime_id : Str) → IsPlaced (open_anime m anime_id)
unfolding open_anime
open_anime-IsPlaced m anime_id = ground arith

page-visible :
    (m : DetailModel) (episode : Episode)
    → IsPlaced m
    → get_elem? m.episodes m.selected ≡ some episode
    → get_elem? (visible_episodes m) (m.selected % detail_page_size) ≡ some episode
unfolding visible_episodes
page-visible m episode h found =
    let start = m.page * detail_page_size in
    let place = m.selected % detail_page_size in
    let at : start + place ≡ m.selected = omega (arith, h.on_page) in
    get_elem?-take detail_page_size (drop start m.episodes) place (omega arith)
    ∙ get_elem?-drop start m.episodes place
    ∙ ap (get_elem? m.episodes) at
    ∙ found

-- However the user moves and whatever lists arrive after an anime is opened, the selected episode is
-- among the episodes in sight, at its place.
pub selected_visible :
    (m : DetailModel) (anime_id : Str) (actions : List DetailAction) (episode : Episode)
    → get_elem?
        (detail_run (open_anime m anime_id) actions).episodes
        (detail_run (open_anime m anime_id) actions).selected
      ≡ some episode
    → let s = detail_run (open_anime m anime_id) actions in
      get_elem? (visible_episodes s) (s.selected % detail_page_size) ≡ some episode
selected_visible m anime_id actions episode found =
    page-visible (detail_run (open_anime m anime_id) actions) episode
      (detail_run-IsPlaced (open_anime m anime_id) actions (open_anime-IsPlaced m anime_id)) found
