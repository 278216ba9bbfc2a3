-- ===== src/Tracking/State/Loads.antt =====
-- A Load seen from the state: beginPending, the events that arrive meanwhile, and then discardPending
-- or commitPending.
use mathlib.Core.Path.{refl}
use anime_portable.Prelude.{
  List, some, ◌≡◌, arith, true, none, All, ◌∷◌, [], if◌then◌else◌, u64, ◌+◌, false, ◌||◌, sym,
}
use anime_portable.Models.{PlaybackEvent, PlayRequest}
use anime_portable.Tracking.State.{
  TrackedPending, TrackedState, is_of, observe, observe_pending, apply, begin_pending,
  discard_pending, commit_state, new_playback, is_negative,
}

unfoldable pub observe_all : TrackedState → List PlaybackEvent → TrackedState
observe_all state [] = state
observe_all state (event ∷ events) = observe_all (observe state event).0 events

abbrev pub AllOf : PlayRequest → List PlaybackEvent → Type 0
AllOf request = All (λ event. is_of event request ≡ true)

-- A pending episode follows its events as a current one does.
abbrev follow : TrackedPending → PlaybackEvent → TrackedPending
follow pending event =
    if is_negative event.position || is_negative event.duration
    then pending
    else if pending.terminal
    then pending
    else observe_pending pending event

abbrev with_pending : TrackedState → TrackedPending → TrackedState
with_pending state pending = record state { pending = some pending }

observe-follow :
    (state : TrackedState) (pending : TrackedPending) (event : PlaybackEvent)
    → is_of event pending.request ≡ true
    → (observe (with_pending state pending) event).0 ≡ with_pending state (follow pending event)
unfolding observe
observe-follow state pending event addressed = ground arith

-- The playbacks agree, and nothing else is pending beside the current one.
record IsSame (pending : TrackedPending) (current : TrackedState) : Type 0 where
  playback : current.playback ≡ pending.playback
  alone : current.pending ≡ none

follow-IsSame :
    (pending : TrackedPending) (current : TrackedState) (event : PlaybackEvent)
    → is_of event pending.request ≡ true
    → IsSame pending current
    → IsSame (follow pending event) (observe current event).0
unfolding observe observe_pending
follow-IsSame pending current event addressed same = ground arith

follow-request :
    (pending : TrackedPending) (event : PlaybackEvent)
    → (follow pending event).request ≡ pending.request
unfolding observe_pending apply
follow-request pending event = ground arith

observe_all-pending :
    (state : TrackedState) (pending : TrackedPending) (current : TrackedState)
    (events : List PlaybackEvent)
    → AllOf pending.request events
    → IsSame pending current
    → (p : TrackedPending) × (observe_all (with_pending state pending) events
        ≡ with_pending state p)
      × IsSame p (observe_all current events)
unfolding observe_all
observe_all-pending state pending current [] addressed same = (pending, refl, same)
observe_all-pending state pending current (event ∷ events) addressed same =
    let (p, e, s) =
      observe_all-pending state (follow pending event) (observe current event).0 events
        (rw (follow-request pending event) addressed.1)
        (follow-IsSame pending current event addressed.0 same) in
    (p, rw (observe-follow state pending event addressed.0) e, s)

abbrev pub fresh : TrackedState → PlayRequest → TrackedState
fresh state request = record {
  playback = new_playback request (u64 (state.owner + 1));
  generation = 0;
  persisted = 0;
  pending = none;
}

abbrev begun : TrackedState → PlayRequest → TrackedPending
begun state request = record {
  playback = new_playback request (u64 (state.owner + 1));
  events = [];
  checkpoint = false;
}

-- A Load that fails leaves the state as it was, whatever events of its episode came meanwhile: of
-- another episode than the current one, or of the current one loaded again.
pub failed_load_restores :
    (state : TrackedState) (request : PlayRequest) (events : List PlaybackEvent)
    → state.pending ≡ none
    → AllOf request events
    → discard_pending (observe_all (begin_pending state request) events) ≡ state
unfolding discard_pending begin_pending new_playback
failed_load_restores state request events alone addressed =
    let (p, e, s) =
      observe_all-pending state (begun state request) (fresh state request) events addressed
        (record { playback = refl; alone = refl }) in
    rw e (ground arith)

-- A Load that succeeds has, for the next owner, the playback of a session started with its request
-- that saw the same events; the generation grows by one.
pub load_follows :
    (state : TrackedState) (request : PlayRequest) (events : List PlaybackEvent)
    → AllOf request events
    → (p : TrackedPending) × ((observe_all (begin_pending state request) events).pending ≡ some p)
      × ((commit_state (observe_all (begin_pending state request) events) p).playback
          ≡ (observe_all (fresh state request) events).playback)
      × ((commit_state (observe_all (begin_pending state request) events) p).generation
          ≡ u64 (state.generation + 1))
unfolding commit_state begin_pending new_playback
load_follows state request events addressed =
    let (p, e, s) =
      observe_all-pending state (begun state request) (fresh state request) events addressed
        (record { playback = refl; alone = refl }) in
    (p, rw e, rw e (sym s.playback), rw e)
