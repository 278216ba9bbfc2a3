-- ===== src/Tests/Player.antt =====
-- The follow star, the queue of actions and the watch of a start, along one run each.
use anime_portable.Views.Data.{PlayRequest}
use anime_portable.Desktop.PlayerOpening.{
  FoundOpening, OpeningLookup, OpeningAction, new_load, plays, answers, runs_update, opening_run,
  no_lookup, stop_lookup, opening_step, opening_playing, ask_opening, show_answer,
}
use anime_portable.Desktop.PlayerOpening.Single.{IsOnScreen, of_shown}
use anime_portable.Desktop.PlayerOpening.OnScreen.{shown-IsOnScreen}
use anime_portable.Desktop.StartWatch.{WatchAction}
use anime_portable.Desktop.Queue.InOrder.{IsInOrder, queue-IsInOrder}
use anime_portable.Desktop.Follow.Shown.{star_stored, new_follow}
use anime_portable.Desktop.StartWatch.Reported.{IsNoBegin, IsNumbered, new_watch, watch_reports}
use anime_portable.Desktop.Queue.{
  QueueAction, queue_run, enqueues, new_queue, queue_step, enqueue, goes_on, is_drained,
  advance_task, finished, advance_phase, running,
}
use anime_portable.Desktop.StartWatch.{
  WatchAction, watch_run, user_action, begin_action, fire_action, playing_action,
}
use anime_portable.Desktop.Follow.{
  FollowAction, Follow, follow_run, FollowUpdate, play_action, changed, follow_step, loaded,
  load_follow, load_action, toggle_follow, toggle_action, work_action, work_follow, show_of,
  update_follow, reload_follow,
}
use anime_portable.Prelude.{
  ◌≤◌, take, All, Str, bytes, str_eq, ◌≡◌, refl, Bool, true, false, some, List, [], ◌∷◌, arith,
  pick, total, map, pos, In,
}

-- Nothing is followed.
none_followed : Str → Bool
none_followed anime_id = false

-- The star is read, the user follows the anime before the answer is there, and both come back.
abbrev following_run : List FollowAction
following_run =
    play_action (bytes "a")
    ∷ load_action (bytes "a")
    ∷ toggle_action (bytes "a") false
    ∷ work_action 1 true
    ∷ work_action 0 true
    ∷ []

abbrev state : Follow
state = follow_run (new_follow none_followed) following_run

abbrev change : FollowUpdate
change = changed (bytes "a") false true

picked : pick 0 state.updates ≡ some (change, loaded (bytes "a") 0 (some false) ∷ [])
unfolding follow_run follow_step load_follow toggle_follow work_follow none_followed
picked = refl

shows :
    show_of change (record state { updates = loaded (bytes "a") 0 (some false) ∷ [] }) ≡ some true
unfolding follow_run follow_step load_follow toggle_follow work_follow show_of str_eq
shows = refl

settles :
    (update_follow change
      (record state { updates = loaded (bytes "a") 0 (some false) ∷ [] })).pending
    ≡ false
unfolding follow_run follow_step load_follow toggle_follow work_follow show_of update_follow
    reload_follow str_eq
settles = refl

star_stored_example : true ≡ state.stored state.playing
star_stored_example =
    star_stored none_followed following_run 0 change (loaded (bytes "a") 0 (some false) ∷ []) true
      picked shows settles

-- Two actions: the second is asked to go on before the first has ended.
abbrev queue_actions : List QueueAction
queue_actions = enqueues ∷ enqueues ∷ goes_on 1 ∷ goes_on 0 ∷ goes_on 0 ∷ goes_on 1 ∷ []

queue_test : queue_run new_queue queue_actions ≡ finished ∷ running ∷ []
unfolding queue_run queue_step enqueue advance_task advance_phase
queue_test = refl

queue-IsInOrder_example :
    let queue = queue_run new_queue queue_actions in
    IsInOrder queue × (is_drained 1 queue ≡ true → All (λ phase. phase ≡ finished) (take 1 queue))
queue-IsInOrder_example = queue-IsInOrder queue_actions 1

-- A start is watched, its timer fires, and the first frame comes before the update runs.
abbrev watch_before : List WatchAction
watch_before = user_action ∷ begin_action 1 ∷ fire_action 0 ∷ playing_action 1 ∷ []

before-IsNumbered : All IsNumbered watch_before
before-IsNumbered = (tt, (omega arith, (tt, (tt, tt))))

after-IsNumbered : All IsNumbered (WatchAction.update_action 0 ∷ [])
after-IsNumbered = (tt, tt)

after-IsNoBegin : All IsNoBegin (WatchAction.update_action 0 ∷ [])
after-IsNoBegin = (tt, tt)

watch_reports_example :
    let s = watch_run new_watch watch_before in
    (s.failures ≤ s.started)
    × (s.watching ≡ 0 → (watch_run s (WatchAction.update_action 0 ∷ [])).failures ≡ s.failures)
watch_reports_example =
    watch_reports watch_before (WatchAction.update_action 0 ∷ []) before-IsNumbered after-IsNumbered
      after-IsNoBegin

abbrev played : PlayRequest
played = record { anime_id = bytes "a"; episode_id = bytes "1"; start_at = pos 0; paused = false }

abbrev found_opening : FoundOpening
found_opening = record { found = true; start = pos 1000; end_at = pos 91000 }

-- The length comes twice; the opening of the first load is answered once the second is on screen.
abbrev opening_actions : List OpeningAction
opening_actions =
    new_load
    ∷ plays played (pos 0)
    ∷ plays played (pos 1440000000000)
    ∷ plays played (pos 1440000000000)
    ∷ new_load
    ∷ plays played (pos 1440000000000)
    ∷ answers 1 (some found_opening)
    ∷ runs_update 0
    ∷ answers 0 (some found_opening)
    ∷ runs_update 0
    ∷ []

opening_test :
    map (λ shown. shown.generation) (opening_run no_lookup opening_actions).shown ≡ 2 ∷ []
unfolding opening_run opening_step opening_playing ask_opening stop_lookup show_answer
opening_test = refl

shown-IsOnScreen_example :
    let s = opening_run no_lookup opening_actions in
    All IsOnScreen s.shown
    × (total (of_shown 2) s.shown ≤ 1)
    × All (λ (lookup : OpeningLookup). In lookup.number (stop_lookup s).cancelled) s.lookups
shown-IsOnScreen_example = shown-IsOnScreen opening_actions 2
