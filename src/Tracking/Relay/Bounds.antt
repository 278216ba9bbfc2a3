-- ===== src/Tracking/Relay/Bounds.antt =====
-- The queues of the relay in core/playback_tracking.go, and its terminal events.
use anime_portable.Prelude.{
  ℕ, ◌≤◌, length, length-append, Option-cases, ◌≡◌, ◌≢◌, [], ◌∷◌, ◌++◌, inl, inr, arith, true,
}
use anime_portable.Models.{PlaybackEvent}
use anime_portable.Playback.{is_terminal}
use anime_portable.Tracking.Queue.{
  queue_capacity, remove_first, length-set_last, length-remove_first,
}
use anime_portable.Tracking.Relay.{
  RelayEvent, Relay, Running, idle, publish, publish_terminal, publish_queued, publish_to,
  take_next, send, recheck, take_wake, halt, item_is_progress, new_running,
}
use anime_portable.Tracking.Relay.Delivery.{
  RelayStep, publishes, takes, sends, rechecks, wakes, halts, RelayReach, started, continued,
}

-- No queue of the relay holds more than its capacity.
pub record IsBounded (relay : Relay) : Type 0 where
  pub queue : length relay.queue ≤ queue_capacity
  pub priority : length relay.priority ≤ queue_capacity

publish_queued-IsBounded :
    (relay : Relay) (item : RelayEvent) → IsBounded relay → IsBounded (publish_queued relay item)
unfolding publish_queued
publish_queued-IsBounded relay item b =
    elim (Option-cases (remove_first item_is_progress relay.queue)) [
      | inl e ↦
          rw e (
            ground (arith, length-set_last relay.queue item, length-append relay.queue (item ∷ [])))
      | inr (kept, e) ↦ rw e (
          ground (
            arith,
            length-set_last relay.queue item,
            length-append relay.queue (item ∷ []),
            length-append kept (item ∷ []),
            length-remove_first item_is_progress relay.queue kept e,
          ))
    ]

publish-IsBounded :
    (relay : Relay) (event : PlaybackEvent) (owner : ℕ)
    → IsBounded relay
    → IsBounded (publish relay event owner)
unfolding publish publish_terminal
publish-IsBounded relay event owner b =
    let item : RelayEvent = record { event = event; owner = owner } in
    ground (arith, publish_queued-IsBounded relay item b, length-append relay.priority (item ∷ []))

RelayStep-IsBounded :
    {m m' : ℕ} {r r' : Running} → RelayStep m r m' r' → IsBounded r.relay → IsBounded r'.relay
unfolding publish_to take_next send recheck take_wake halt
RelayStep-IsBounded (publishes m r event owner later) b = publish-IsBounded r.relay event owner b
RelayStep-IsBounded (takes m r) b = ground arith
RelayStep-IsBounded (sends m r) b = ground arith
RelayStep-IsBounded (rechecks m r) b = ground arith
RelayStep-IsBounded (wakes m r) b = ground arith
RelayStep-IsBounded (halts m r) b = ground arith

-- After any sequence of actions of the relay and its users, neither of its queues holds more than the
-- capacity.
pub RelayReach-IsBounded : {m : ℕ} {r : Running} → RelayReach m r → IsBounded r.relay
unfolding new_running
RelayReach-IsBounded started = omega arith
RelayReach-IsBounded (continued before step) =
    RelayStep-IsBounded step (RelayReach-IsBounded before)

-- From an idle relay with no terminal event waiting, a terminal event that is not refused is the
-- next one sent, whatever the queue holds; the queue is then empty.
pub terminal_first :
    (r : Running) (event : PlaybackEvent) (owner : ℕ)
    → r.phase ≡ idle
    → r.priority ≡ []
    → is_terminal event.kind ≡ true
    → (r.terminal_seen ≡ true → r.last_terminal_owner ≢ owner)
    → let r' = send (take_next (publish_to r event owner)) in
      (r'.sent ≡ r.sent ++ record { event = event; owner = owner } ∷ [])
      × (r'.phase ≡ idle)
      × (r'.queue ≡ [])
      × (r'.priority ≡ [])
unfolding publish_to publish publish_terminal take_next send
terminal_first r event owner idling empty t other = ground arith
