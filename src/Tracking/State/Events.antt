-- ===== src/Tracking/State/Events.antt =====
-- Which events change the tracked state, and how.
use anime_portable.Prelude.{◌≡◌, true, false, some, arith, Option-cases, inl, inr}
use anime_portable.Models.{PlaybackEvent}
use anime_portable.Tracking.State.{
  TrackedPending, TrackedState, is_of, observe, apply, SnapshotAnswer, taken, refresh_snapshot,
}

-- An event of neither the current nor the pending episode, or with a negative position or length,
-- changes nothing, asks for no checkpoint and is not relayed.
pub observe_foreign :
    (state : TrackedState) (event : PlaybackEvent)
    → is_of event state.request ≡ false
    → ((pending : TrackedPending)
        → state.pending ≡ some pending
        → is_of event pending.request ≡ false)
    → observe state event ≡ (state, false, 0)
unfolding observe
observe_foreign state event current other = elim (Option-cases state.pending) [
  | inl e ↦ ground arith
  | inr (pending, e) ↦ ground (arith, other pending e)
]

-- Once the current episode has ended, no event of it, and no answer of the player, changes what is
-- known about it.
pub observe_ended :
    (state : TrackedState) (event : PlaybackEvent)
    → state.terminal ≡ true
    → ((observe state event).0.playback ≡ state.playback)
      × ((observe state event).0.generation ≡ state.generation)
unfolding observe
observe_ended state event ended = ground arith

pub refresh_snapshot_ended :
    (state : TrackedState) (answer : SnapshotAnswer)
    → state.terminal ≡ true
    → refresh_snapshot state answer ≡ (state, taken state.snapshot)
unfolding refresh_snapshot
refresh_snapshot_ended state answer ended = ground arith

-- Neither an event nor an answer of the player takes back that the episode was completed.
pub observe-completed :
    (state : TrackedState) (event : PlaybackEvent)
    → state.completed ≡ true
    → (observe state event).0.completed ≡ true
unfolding observe apply
observe-completed state event done = ground arith

pub refresh_snapshot-completed :
    (state : TrackedState) (answer : SnapshotAnswer)
    → state.completed ≡ true
    → (refresh_snapshot state answer).0.completed ≡ true
unfolding refresh_snapshot
refresh_snapshot-completed state answer done = ground arith
