-- ===== src/Tracking/Session/Steps.antt =====
-- The interleavings of a session: its operations, the player's events, the store's answers and the
-- relay's goroutine, in any order.
use anime_portable.Prelude.{Bool, List, ◌∷◌, []}
use anime_portable.Models.{Time, PlayRequest, PlaybackEvent}
use anime_portable.Tracking.State.{SnapshotAnswer}
use anime_portable.Tracking.Relay.{Running, take_next, send, recheck, take_wake, halt}
use anime_portable.Tracking.Session.{
  Session, handle_event, commit_pending, start_checkpoint, finish_checkpoint, begin_load,
  discard_load, refresh,
}

-- An action of the relay's goroutine.
pub data Turn : Type 0 where
  takes sends rechecks wakes halts : Turn

unfoldable pub turn : Turn → Running → Running
turn takes r = take_next r
turn sends r = send r
turn rechecks r = recheck r
turn wakes r = take_wake r
turn halts r = halt r

pub data Action : Type 0 where
  event : PlaybackEvent → Action
  begin : PlayRequest → Action
  discard : Action
  commit : Action
  snapshot : SnapshotAnswer → Action
  start : Action
  finish : Bool → Time → Action
  relay : Turn → Action

unfoldable pub step : Session → Action → Session
step s (event e) = (handle_event s e).0
step s (begin request) = begin_load s request
step s discard = discard_load s
step s commit = (commit_pending s).0
step s (snapshot answer) = (refresh s answer).0
step s start = start_checkpoint s
step s (finish accepted now) = finish_checkpoint s accepted now
step s (relay t) = record s { running = turn t s.running }

-- A session after a schedule of actions, the latest last.
unfoldable pub run : Session → List Action → Session
run s [] = s
run s (action ∷ actions) = run (step s action) actions
