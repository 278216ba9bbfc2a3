-- ===== src/Tracking/State.antt =====
-- core/playback_tracking.go: what the session knows about the current episode and about the one a
-- pending Load switches to. Each function is one critical section under stateMu.
pub mod Events
pub mod Loads
use anime_portable.Prelude.{
  ℕ, ◌+◌, ltb, leb, ◌==◌, is_empty, length, drop, u64, str_eq, Bool, true, false, not, ◌&&◌, ◌||◌,
  Option, none, some, List, [], ◌∷◌, ◌++◌, if◌then◌else◌, eq_ℤ, pos,
}
use anime_portable.Models.{
  Err, playback_tracking, Time, PlayRequest, PlaybackEvent, PlaybackSnapshot, HistoryEntry,
}
use anime_portable.Playback.{
  is_progress, is_ended, is_paused, is_terminal, is_checkpoint_boundary, is_negative,
  is_valid_snapshot, is_completion_reached,
}
use anime_portable.Tracking.Queue.{queue_capacity, remove_first, is_last, set_last}

pub record TrackedPlayback : Type 0 where
  pub request : PlayRequest
  pub snapshot : PlaybackSnapshot
  pub completed : Bool
  pub terminal : Bool
  pub owner : ℕ  -- uint64

pub record TrackedPending : Type 0 where
  pub playback : TrackedPlayback
  pub open playback use *
  pub events : List PlaybackEvent
  pub checkpoint : Bool

pub record TrackedState : Type 0 where
  pub playback : TrackedPlayback
  pub open playback use *
  pub generation : ℕ  -- uint64
  pub persisted : ℕ  -- uint64
  pub pending : Option TrackedPending

-- newTrackedPlayback
unfoldable pub new_playback : PlayRequest → ℕ → TrackedPlayback
new_playback request owner = record {
  request = request;
  snapshot = record { position = request.start_at; duration = pos 0; paused = request.paused };
  completed = false;
  terminal = false;
  owner = owner;
}

-- The state of newTrackedPlaybackSession.
unfoldable pub new_state : PlayRequest → TrackedState
unfolding new_playback
new_state request = record {
  playback = new_playback request 1;
  generation = 1;
  persisted = 0;
  pending = none;
}

-- trackedPlayback.apply
unfoldable pub apply : TrackedPlayback → PlaybackEvent → TrackedPlayback
apply playback event = record playback {
  snapshot = record {
    position = event.position;
    duration = event.duration;
    paused = is_paused event.kind;
  };
  completed =
      playback.completed
      || is_ended event.kind
      || is_completion_reached event.position event.duration;
  terminal = is_terminal event.kind;
}

abbrev event_is_progress : PlaybackEvent → Bool
event_is_progress event = is_progress event.kind

-- The part of appendPendingPlaybackEvent for a full queue, from its search for a progress event.
append_full : Option (List PlaybackEvent) → List PlaybackEvent → PlaybackEvent → List PlaybackEvent
append_full (some kept) events event = kept ++ event ∷ []
append_full none events event =
    if not (is_terminal event.kind) then events else drop 1 events ++ event ∷ []

-- appendPendingPlaybackEvent
unfoldable pub append_pending : List PlaybackEvent → PlaybackEvent → List PlaybackEvent
unfolding append_full
append_pending events event =
    if is_progress event.kind && is_last event_is_progress events
    then set_last events event
    else if leb queue_capacity (length events)
    then append_full (remove_first event_is_progress events) events event
    else events ++ event ∷ []

-- The event is one of the request's episode.
unfoldable pub is_of : PlaybackEvent → PlayRequest → Bool
is_of event request =
    str_eq event.anime_id request.anime_id && str_eq event.episode_id request.episode_id

observe_pending : TrackedPending → PlaybackEvent → TrackedPending
observe_pending pending event = record {
  playback = apply pending.playback event;
  events = append_pending pending.events event;
  checkpoint = pending.checkpoint || is_checkpoint_boundary event.kind;
}

observe_current : TrackedState → PlaybackEvent → TrackedState × Bool × ℕ
observe_current state event =
    if is_of event state.request
    then if state.terminal then (state, false, 0) else (
      record state {
        playback = apply state.playback event;
        generation = u64 (state.generation + 1);
      },
      is_checkpoint_boundary event.kind,
      state.owner,
    )
    else (state, false, 0)

observe_by : Option TrackedPending → TrackedState → PlaybackEvent → TrackedState × Bool × ℕ
unfolding observe_pending observe_current
observe_by none state event = observe_current state event
observe_by (some pending) state event =
    if is_of event pending.request
    then if pending.terminal
      then (state, false, 0)
      else (record state { pending = some (observe_pending pending event) }, false, pending.owner)
    else observe_current state event

-- observe: the new state, whether a checkpoint is due, and the owner to relay the event for (0 for
-- none).
unfoldable pub observe : TrackedState → PlaybackEvent → TrackedState × Bool × ℕ
unfolding observe_by
observe state event =
    if is_negative event.position || is_negative event.duration
    then (state, false, 0)
    else observe_by state.pending state event

-- beginPending
unfoldable pub begin_pending : TrackedState → PlayRequest → TrackedState
begin_pending state request = record state {
  pending = some (record {
    playback = new_playback request (u64 (state.owner + 1));
    events = [];
    checkpoint = false;
  });
}

-- discardPending
unfoldable pub discard_pending : TrackedState → TrackedState
discard_pending state = record state { pending = none }

-- The state part of commitPending; a pending playback takes the current one's place.
unfoldable pub commit_state : TrackedState → TrackedPending → TrackedState
commit_state state pending = record state {
  playback = pending.playback;
  generation = u64 (state.generation + 1);
  pending = none;
}

abbrev bool_eq : Bool → Bool → Bool
bool_eq true b = b
bool_eq false b = not b

-- `a == b` on snapshots.
unfoldable pub snapshot_eq : PlaybackSnapshot → PlaybackSnapshot → Bool
snapshot_eq a b =
    eq_ℤ a.position b.position && eq_ℤ a.duration b.duration && bool_eq a.paused b.paused

-- What the player answers to a snapshot request.
pub data SnapshotAnswer : Type 0 where
  answered : PlaybackSnapshot → SnapshotAnswer
  unavailable : Err → SnapshotAnswer

pub data SnapshotResult : Type 0 where
  taken : PlaybackSnapshot → SnapshotResult
  refused : Err → SnapshotResult

take_snapshot : TrackedState → PlaybackSnapshot → TrackedState × SnapshotResult
take_snapshot state snapshot =
    if not (is_valid_snapshot snapshot)
    then (state, refused playback_tracking)
    else if snapshot_eq snapshot state.snapshot
    then (state, taken snapshot)
    else (
      record state {
        playback = record (state.playback) {
          snapshot = snapshot;
          completed = state.completed || is_completion_reached snapshot.position snapshot.duration;
        };
        generation = u64 (state.generation + 1);
      },
      taken snapshot,
    )

-- refreshSnapshot from the return of raw.Snapshot on. The critical section before the call only
-- returns early when the episode has ended, and so does this one.
unfoldable pub refresh_snapshot : TrackedState → SnapshotAnswer → TrackedState × SnapshotResult
unfolding take_snapshot
refresh_snapshot state answer =
    if state.terminal then (state, taken state.snapshot) else elim answer [
      | unavailable err ↦ (state, refused err)
      | answered snapshot ↦ take_snapshot state snapshot
    ]

-- What checkpoint reads under stateMu before it saves.
pub record Checkpoint : Type 0 where
  pub generation : ℕ
  pub request : PlayRequest
  pub snapshot : PlaybackSnapshot
  pub completed : Bool

pub data CheckpointStart : Type 0 where
  nothing_new : CheckpointStart
  unusable : CheckpointStart
  save : Checkpoint → CheckpointStart

-- checkpoint from the acquired gate up to the call of the store.
unfoldable pub begin_checkpoint : TrackedState → CheckpointStart
begin_checkpoint state =
    if state.generation == state.persisted
    then nothing_new
    else if is_empty state.request.anime_id
        || is_empty state.request.episode_id
        || not (is_valid_snapshot state.snapshot)
    then unusable
    else save (record {
      generation = state.generation;
      request = state.request;
      snapshot = state.snapshot;
      completed =
          state.completed || is_completion_reached state.snapshot.position state.snapshot.duration;
    })

-- The entry that checkpoint hands to the store.
unfoldable pub checkpoint_entry : Checkpoint → Time → HistoryEntry
checkpoint_entry checkpoint now = record {
  progress = record {
    anime_id = checkpoint.request.anime_id;
    episode_id = checkpoint.request.episode_id;
    position = checkpoint.snapshot.position;
    duration = checkpoint.snapshot.duration;
    completed = checkpoint.completed;
    updated_at = now;
  };
  last_played_at = now;
}

-- checkpoint after the store has saved the entry.
unfoldable pub end_checkpoint : TrackedState → Checkpoint → TrackedState
end_checkpoint state checkpoint = record state {
  persisted =
      if ltb state.persisted checkpoint.generation then checkpoint.generation else state.persisted;
  playback = record (state.playback) { completed = checkpoint.completed || state.completed };
}
