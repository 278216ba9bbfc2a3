-- ===== src/Tracking/Session.antt =====
-- core/playback_tracking.go: trackedPlaybackSession with its relay, its checkpoints and the entries
-- that it has saved. Each function is what the program does between two points where another
-- goroutine can run: under stateMu or deliveryMu, or between two operations on a channel.
pub mod Steps
pub mod Safety
pub mod Checkpoints
pub mod Delivery
use anime_portable.Prelude.{
  ℕ, ◌==◌, Bool, true, false, ◌||◌, Option, none, some, List, [], ◌∷◌, ◌++◌, if◌then◌else◌,
}
use anime_portable.Models.{Time, PlayRequest, PlaybackEvent, HistoryEntry}
use anime_portable.Tracking.State.{
  TrackedPending, TrackedState, new_state, observe, begin_pending, discard_pending, commit_state,
  SnapshotAnswer, SnapshotResult, refresh_snapshot, Checkpoint, CheckpointStart, nothing_new,
  unusable, save, begin_checkpoint, checkpoint_entry, end_checkpoint,
}
use anime_portable.Tracking.Relay.{Running, new_running, publish_to}

-- `saving` is the checkpoint that holds persistGate, and `saved` is what the store has accepted.
pub record Session : Type 0 where
  pub state : TrackedState
  pub open state use *
  pub running : Running
  pub saving : Option Checkpoint
  pub saved : List HistoryEntry

-- newTrackedPlaybackSession, when the player can take snapshots and there is a store.
unfoldable pub new_session : PlayRequest → Session
unfolding new_state new_running
new_session request = record {
  state = new_state request;
  running = new_running;
  saving = none;
  saved = [];
}

pub is_pending_owner : Option TrackedPending → ℕ → Bool
is_pending_owner none owner = false
is_pending_owner (some pending) owner = pending.owner == owner

-- handleRawEvent under deliveryMu: the session, and whether a checkpoint is due.
unfoldable pub handle_event : Session → PlaybackEvent → Session × Bool
unfolding is_pending_owner
handle_event s event =
    let (state, due, owner) = observe s.state event in
    let relays : Bool = (owner == 0) || is_pending_owner state.pending owner in
    (
      record s {
        state = state;
        running = if relays then s.running else publish_to s.running event owner;
      },
      due,
    )

pub publish_all : Running → List PlaybackEvent → ℕ → Running
publish_all running [] owner = running
publish_all running (event ∷ events) owner =
    publish_all (publish_to running event owner) events owner

commit_by : Option TrackedPending → Session → Session × Bool
commit_by none s = (s, false)
commit_by (some pending) s = (
  record s {
    state = commit_state s.state pending;
    running = publish_all s.running pending.events pending.owner;
  },
  pending.checkpoint,
)

-- commitPending under deliveryMu: the session, and whether a checkpoint is due.
unfoldable pub commit_pending : Session → Session × Bool
unfolding commit_by
commit_pending s = commit_by s.state.pending s

start_by : CheckpointStart → Session → Session
start_by nothing_new s = s
start_by unusable s = s
start_by (save checkpoint) s = record s { saving = some checkpoint }

-- checkpoint up to the call of the store; with the gate taken nothing happens.
unfoldable pub start_checkpoint : Session → Session
unfolding start_by
start_checkpoint s = elim s.saving [
  | none ↦ start_by (begin_checkpoint s.state) s
  | some checkpoint ↦ s
]

finish_by : Option Checkpoint → Bool → Time → Session → Session
finish_by none accepted now s = s
finish_by (some checkpoint) false now s = record s { saving = none }
finish_by (some checkpoint) true now s = record s {
  state = end_checkpoint s.state checkpoint;
  saving = none;
  saved = s.saved ++ checkpoint_entry checkpoint now ∷ [];
}

-- checkpoint from the answer of the store on; `accepted` is whether the store saved the entry.
unfoldable pub finish_checkpoint : Session → Bool → Time → Session
unfolding finish_by
finish_checkpoint s accepted now = finish_by s.saving accepted now s

-- beginPending, discardPending and refreshSnapshot on the session.
unfoldable pub begin_load : Session → PlayRequest → Session
begin_load s request = record s { state = begin_pending s.state request }

unfoldable pub discard_load : Session → Session
discard_load s = record s { state = discard_pending s.state }

unfoldable pub refresh : Session → SnapshotAnswer → Session × SnapshotResult
refresh s answer =
    let (state, result) = refresh_snapshot s.state answer in (record s { state = state }, result)
