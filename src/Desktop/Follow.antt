-- ===== src/Desktop/Follow.antt =====
-- apps/desktop/player_follow.go: playerFollow, which keeps the follow star in step with the stored list.
-- Its functions and the updates run on the UI thread, one at a time, in any order; its works run off it.
-- The stored list is what the backend's Following, Follow and Unfollow see and change.
pub mod Shown
use anime_portable.Prelude.{
  ℕ, ◌+◌, ◌==◌, if◌then◌else◌, Str, str_eq, is_empty, Bool, true, false, not, ◌&&◌, Option, none,
  some, List, [], ◌∷◌, pick,
}

-- A work that has been started, with the variables of its closure.
pub data FollowWork : Type 0 where
  reads : Str → ℕ → FollowWork
  changes_to : Str → Bool → FollowWork

-- An update that waits for the UI thread: the answer of a read, none on an error, or the end of a change
-- with its success.
pub data FollowUpdate : Type 0 where
  loaded : Str → ℕ → Option Bool → FollowUpdate
  changed : Str → Bool → Bool → FollowUpdate

-- playerFollow with what is around it: the anime being played, "" for none, and the stored list.
pub record Follow : Type 0 where
  pub pending : Bool
  pub changes : ℕ
  pub playing : Str
  pub stored : Str → Bool
  pub works : List FollowWork
  pub updates : List FollowUpdate
  pub shown : Option Bool
  pub failures : ℕ

-- load
unfoldable pub load_follow : Str → Follow → Follow
load_follow anime_id s = record s { works = reads anime_id s.changes ∷ s.works }

-- toggle
unfoldable pub toggle_follow : Str → Bool → Follow → Follow
toggle_follow anime_id following s = if s.pending then s else record s {
  pending = true;
  changes = s.changes + 1;
  works = changes_to anime_id following ∷ s.works;
}

-- Follow or Unfollow in the store.
abbrev pub store_follow : (Str → Bool) → Str → Bool → Str → Bool
store_follow stored anime_id following id = if str_eq id anime_id then not following else stored id

-- What a work does off the UI thread, and the update that it leaves; a failed call changes nothing.
unfoldable pub work_follow : FollowWork → Bool → Follow → Follow
work_follow (reads anime_id changes) true s = record s {
  updates = loaded anime_id changes (some (s.stored anime_id)) ∷ s.updates;
}
work_follow (reads anime_id changes) false s = record s {
  updates = loaded anime_id changes none ∷ s.updates;
}
work_follow (changes_to anime_id following) true s = record s {
  stored = store_follow s.stored anime_id following;
  updates = changed anime_id following true ∷ s.updates;
}
work_follow (changes_to anime_id following) false s = record s {
  updates = changed anime_id following false ∷ s.updates;
}

-- What an update shows, if it shows anything: `following` of `show(true, following)`.
unfoldable pub show_of : FollowUpdate → Follow → Option Bool
show_of (loaded anime_id changes none) s = none
show_of (loaded anime_id changes (some following)) s =
    if (changes == s.changes) && str_eq s.playing anime_id then some following else none
show_of (changed anime_id following success) s =
    if success && str_eq s.playing anime_id then some (not following) else none

abbrev pub show : Option Bool → Follow → Follow
show none s = s
show (some following) s = record s { shown = some following }

-- The end of toggle's update: the state is read again where nothing was shown.
unfoldable pub reload_follow : Option Bool → Follow → Follow
reload_follow (some following) s = s
reload_follow none s = if is_empty s.playing then s else load_follow s.playing s

-- An update on the UI thread.
unfoldable pub update_follow : FollowUpdate → Follow → Follow
update_follow (loaded anime_id changes answer) s =
    show (show_of (loaded anime_id changes answer) s) s
update_follow (changed anime_id following success) s =
    let showing = show_of (changed anime_id following success) s in
    reload_follow showing (
      show showing (record s {
        pending = false;
        changes = s.changes + 1;
        failures = if success then s.failures else s.failures + 1;
      }))

pub data FollowAction : Type 0 where
  load_action : Str → FollowAction
  toggle_action : Str → Bool → FollowAction
  play_action : Str → FollowAction
  work_action : ℕ → Bool → FollowAction
  update_action : ℕ → FollowAction

abbrev work_picked : Option (FollowWork × List FollowWork) → Bool → Follow → Follow
work_picked none success s = s
work_picked (some (work, rest)) success s = work_follow work success (record s { works = rest })

abbrev update_picked : Option (FollowUpdate × List FollowUpdate) → Follow → Follow
update_picked none s = s
update_picked (some (update, rest)) s = update_follow update (record s { updates = rest })

unfoldable pub follow_step : Follow → FollowAction → Follow
follow_step s (load_action anime_id) = load_follow anime_id s
follow_step s (toggle_action anime_id following) = toggle_follow anime_id following s
follow_step s (play_action anime_id) = record s { playing = anime_id }
follow_step s (work_action i success) = work_picked (pick i s.works) success s
follow_step s (update_action i) = update_picked (pick i s.updates) s

unfoldable pub follow_run : Follow → List FollowAction → Follow
follow_run s [] = s
follow_run s (action ∷ actions) = follow_run (follow_step s action) actions
