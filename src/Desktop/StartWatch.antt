-- ===== src/Desktop/StartWatch.antt =====
-- apps/desktop/player_start_watch.go: playerStartWatch, which reports a start that shows no first frame
-- in time. The timers are those that may still fire; `view` is the token that every user action changes.
pub mod Reported
use anime_portable.Prelude.{
  ℕ, ◌+◌, ◌==◌, if◌then◌else◌, not, ◌||◌, Option, none, some, List, [], ◌∷◌, pick,
}

-- playerStartWatch; `stop` is the timer that it would stop, by its number.
pub record StartWatch : Type 0 where
  pub watching : ℕ
  pub stop : Option ℕ
  pub timers : List (ℕ × ℕ)  -- a timer's number and the view of its closure
  pub started : ℕ
  pub updates : List ℕ  -- the views of the updates that wait for the UI thread
  pub view : ℕ
  pub failures : ℕ

-- A stopped timer does not fire; one that has fired is not there.
unfoldable pub stop_timer : ℕ → List (ℕ × ℕ) → List (ℕ × ℕ)
stop_timer n [] = []
stop_timer n ((m, view) ∷ timers) =
    let rest = stop_timer n timers in if n == m then rest else (m, view) ∷ rest

abbrev pub stopped : Option ℕ → List (ℕ × ℕ) → List (ℕ × ℕ)
stopped none timers = timers
stopped (some n) timers = stop_timer n timers

-- end
unfoldable pub end_watch : StartWatch → StartWatch
end_watch s = record s { watching = 0; stop = none; timers = stopped s.stop s.timers }

-- begin
unfoldable pub begin_watch : ℕ → StartWatch → StartWatch
begin_watch view s = record (end_watch s) {
  watching = view;
  stop = some s.started;
  timers = (s.started, view) ∷ (end_watch s).timers;
  started = s.started + 1;
}

-- playing
unfoldable pub watch_playing : ℕ → StartWatch → StartWatch
watch_playing view s = if s.watching == view then end_watch s else s

-- The update of a timer that has fired.
unfoldable pub watch_update : ℕ → StartWatch → StartWatch
watch_update view s =
    if not (s.watching == view) || not (s.view == view)
    then s
    else record (end_watch s) { failures = s.failures + 1 }

pub data WatchAction : Type 0 where
  begin_action : ℕ → WatchAction
  playing_action : ℕ → WatchAction
  end_action user_action : WatchAction
  fire_action : ℕ → WatchAction
  update_action : ℕ → WatchAction

abbrev fired : Option ((ℕ × ℕ) × List (ℕ × ℕ)) → StartWatch → StartWatch
fired none s = s
fired (some ((n, view), rest)) s = record s { timers = rest; updates = view ∷ s.updates }

abbrev updated : Option (ℕ × List ℕ) → StartWatch → StartWatch
updated none s = s
updated (some (view, rest)) s = watch_update view (record s { updates = rest })

unfoldable pub watch_step : StartWatch → WatchAction → StartWatch
watch_step s (begin_action view) = begin_watch view s
watch_step s (playing_action view) = watch_playing view s
watch_step s end_action = end_watch s
watch_step s user_action = record s { view = s.view + 1 }
watch_step s (fire_action i) = fired (pick i s.timers) s
watch_step s (update_action i) = updated (pick i s.updates) s

unfoldable pub watch_run : StartWatch → List WatchAction → StartWatch
watch_run s [] = s
watch_run s (action ∷ actions) = watch_run (watch_step s action) actions
