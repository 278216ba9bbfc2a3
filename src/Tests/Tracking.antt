-- ===== src/Tests/Tracking.antt =====
-- Sessions of core/playback_tracking.go in which the properties' hypotheses hold.
use anime_portable.Prelude.{
  ℕ, ◌+◌, bytes, str_eq, pos, u64, String, ◌≡◌, refl, true, false, none, some, List, [], ◌∷◌, arith,
}
use anime_portable.Models.{PlayRequest, PlaybackEvent, PlaybackEventKind, ended, progress}
use anime_portable.Tracking.State.{
  TrackedState, TrackedPending, is_of, new_state, begin_pending, discard_pending, commit_state,
  new_playback,
}
use anime_portable.Tracking.State.Loads.{
  observe_all, fresh, failed_load_restores, load_follows, AllOf,
}
use anime_portable.Tracking.Relay.Order.{IsSettled}
use anime_portable.Tracking.Relay.Delivery.{takes}
use anime_portable.Tracking.Session.{
  Session, new_session, handle_event, start_checkpoint, begin_load,
}
use anime_portable.Tracking.Session.Steps.{
  Action, event, begin, commit, start, finish, relay, run, takes, sends,
}
use anime_portable.Tracking.Session.Safety.{IsCounted, run-IsCounted}
use anime_portable.Tracking.Session.Delivery.{run-IsSettled}

abbrev request_of : String → PlayRequest
request_of episode = record {
  anime_id = bytes "frieren";
  episode_id = bytes episode;
  source = record { url = bytes "http://127.0.0.1/1"; headers = [] };
  start_at = pos 0;
  paused = false;
}

abbrev first : PlayRequest
first = request_of "1"

abbrev second : PlayRequest
second = request_of "2"

abbrev event_of : String → PlaybackEventKind → ℕ → PlaybackEvent
event_of episode kind position = record {
  anime_id = bytes "frieren";
  episode_id = bytes episode;
  kind = kind;
  position = pos position;
  duration = pos 100;
  err = none;
}

-- The first episode ends, and the second is loaded and ends.
abbrev schedule : List Action
schedule =
    event (event_of "1" ended 100)
    ∷ begin second
    ∷ event (event_of "2" ended 100)
    ∷ commit
    ∷ relay takes
    ∷ relay sends
    ∷ []

run-IsSettled_example : IsSettled (run (new_session first) schedule).running.sent
run-IsSettled_example = run-IsSettled first schedule (omega arith)

run-IsCounted_example : IsCounted 6 (run (new_session first) schedule)
run-IsCounted_example = run-IsCounted first schedule (omega arith)

-- The first episode, ended, with nothing saved of it.
abbrev ended_session : Session
ended_session = (handle_event (new_session first) (event_of "1" ended 100)).0

ended_session-free : ended_session.saving ≡ none
unfolding handle_event new_session
ended_session-free = refl

-- The user goes back into the ended episode, and it is saved.
abbrev goes_back : List Action
goes_back = event (event_of "1" progress 10) ∷ start ∷ finish true 7 ∷ []

-- The second episode is being loaded while the end of the first is being saved.
abbrev saving_session : Session
saving_session = begin_load (start_checkpoint ended_session) second

abbrev next_playback : TrackedPending
next_playback = record { playback = new_playback second 2; events = []; checkpoint = false }

abbrev state : TrackedState
state = new_state first

state-alone : state.pending ≡ none
unfolding new_state
state-alone = refl

abbrev second_events : List PlaybackEvent
second_events = event_of "2" progress 5 ∷ event_of "2" ended 100 ∷ []

second_events-AllOf : AllOf second second_events
unfolding is_of str_eq
second_events-AllOf = (refl, (refl, tt))

failed_load_restores_example :
    discard_pending (observe_all (begin_pending state second) second_events) ≡ state
failed_load_restores_example =
    failed_load_restores state second second_events state-alone second_events-AllOf

load_follows_example :
    (p : TrackedPending) × ((observe_all (begin_pending state second) second_events).pending
      ≡ some p)
    × ((commit_state (observe_all (begin_pending state second) second_events) p).playback
        ≡ (observe_all (fresh state second) second_events).playback)
    × ((commit_state (observe_all (begin_pending state second) second_events) p).generation
        ≡ u64 (state.generation + 1))
load_follows_example = load_follows state second second_events second_events-AllOf
