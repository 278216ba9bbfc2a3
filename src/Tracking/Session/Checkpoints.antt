-- ===== src/Tracking/Session/Checkpoints.antt =====
-- What checkpoints save, and when.
use anime_portable.Prelude.{
  ◌<◌, none, some, arith, true, ◌≡◌, ◌||◌, false, is_empty, ◌++◌, ◌≢◌, List, All,
}
use anime_portable.Models.{HistoryEntry, Time}
use anime_portable.Playback.{is_valid_snapshot, is_completion_reached}
use anime_portable.Tracking.State.{Checkpoint, begin_checkpoint}
use anime_portable.Tracking.Session.{Session, start_checkpoint, finish_checkpoint}
use anime_portable.Tracking.Session.Steps.{Action, commit, snapshot}

-- The checkpoint that is due now.
abbrev pub due : Session → Checkpoint
due s = record {
  generation = s.generation;
  request = s.request;
  snapshot = s.snapshot;
  completed = s.completed || is_completion_reached s.snapshot.position s.snapshot.duration;
}

-- Something of a named episode is unsaved, and no other checkpoint is under way.
pub record IsDue (s : Session) : Type 0 where
  pub free : s.saving ≡ none
  pub unsaved : s.persisted < s.generation
  pub anime : is_empty s.request.anime_id ≡ false
  pub episode : is_empty s.request.episode_id ≡ false
  pub valid : is_valid_snapshot s.snapshot ≡ true

-- A checkpoint that the store refuses changes nothing, so that the next one tries the same again.
pub checkpoint_retries :
    (s : Session) (now : Time)
    → s.saving ≡ none
    → finish_checkpoint (start_checkpoint s) false now ≡ s
unfolding start_checkpoint finish_checkpoint begin_checkpoint
checkpoint_retries s now free = ground arith

-- An entry that has the episode as completed.
abbrev pub IsCompleted : HistoryEntry → Type 0
IsCompleted entry = entry.progress.completed ≡ true

-- The episode is completed, and so is what is being saved of it.
pub record IsDone (s : Session) : Type 0 where
  pub completed : s.completed ≡ true
  pub saving : (c : Checkpoint) → s.saving ≡ some c → c.completed ≡ true

abbrev pub IsNoCommit : Action → Type 0
IsNoCommit action = action ≢ commit

-- The entries that one action adds.
record Adds (s s' : Session) : Type 0 where
  new : List HistoryEntry
  saved : s'.saved ≡ s.saved ++ new
  completed : All IsCompleted new
  done : IsDone s'
