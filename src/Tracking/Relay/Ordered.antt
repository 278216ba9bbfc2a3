-- ===== src/Tracking/Relay/Ordered.antt =====
-- The invariant of the relay's order, and publish of core/playback_tracking.go.
use mathlib.Core.List.{append_assoc}
use anime_portable.Prelude.{
  ℕ, ◌<◌, ◌≤◌, leb, ◌==◌, length, All, All-append, Bool, true, false, Bool-cases, ◌&&◌, Option,
  none, some, List, [], ◌∷◌, ◌++◌, ◌≡◌, refl, inl, inr, arith, All-map,
}
use anime_portable.Models.{PlaybackEvent}
use anime_portable.Playback.{is_terminal}
use anime_portable.Tracking.Queue.{queue_capacity, remove_first, All-set_last, All-remove_first}
use anime_portable.Tracking.Relay.{
  RelayEvent, Relay, Phase, idle, sending_priority, sending_queued, returned, Running, new_running,
  publish, publish_terminal, publish_queued, publish_full, coalesces, publish_to, item_is_progress,
}
use anime_portable.Tracking.Relay.Order.{item_is_terminal, Before, IsSettled, IsSettled-snoc}

abbrev pub held : Phase → List RelayEvent
held (sending_priority item) = item ∷ []
held (sending_queued item generation) = item ∷ []
held idle = []
held returned = []

-- What is sent, and what will be sent before anything of the queue.
abbrev pub front : Running → List RelayEvent
front r = r.sent ++ (held r.phase ++ r.priority)

-- A terminal event that was accepted is accounted for by the relay's memory of the last one.
abbrev pub Known : Relay → RelayEvent → Type 0
Known relay x =
    item_is_terminal x ≡ true → (relay.terminal_seen ≡ true) × (x.owner ≤ relay.last_terminal_owner)

-- A queued event is no terminal, and belongs to a later owner than the last terminal.
abbrev pub Fresh : Relay → RelayEvent → Type 0
Fresh relay x =
    (item_is_terminal x ≡ false)
    × (relay.terminal_seen ≡ true → relay.last_terminal_owner < x.owner)

-- `latest` is the greatest owner published so far.
pub record IsOrdered (latest : ℕ) (r : Running) : Type 0 where
  pub settled : IsSettled (front r)
  pub known : All (Known r.relay) (front r)
  pub fresh : All (Fresh r.relay) r.queue
  pub published : r.terminal_seen ≡ true → r.last_terminal_owner ≤ latest

pub new-IsOrdered : IsOrdered 0 new_running
unfolding new_running
new-IsOrdered = ground arith

front-snoc :
    (sent held priority : List RelayEvent) (item : RelayEvent)
    → sent ++ (held ++ (priority ++ item ∷ [])) ≡ (sent ++ (held ++ priority)) ++ item ∷ []
front-snoc sent held priority item = simp append_assoc

abbrev with_relay : Running → Relay → Running
with_relay r relay = record r { relay = relay }

-- What a publish of `item` finds when it is not refused.
record IsNext (m : ℕ) (r : Running) (item : RelayEvent) : Type 0 where
  ordered : IsOrdered m r
  later : m ≤ item.owner
  other : r.terminal_seen ≡ true → r.last_terminal_owner < item.owner

module _ (m : ℕ) (r : Running) (item : RelayEvent) (next : IsNext m r item) where
  front-Before : All (λ x. Before x item) (front r)
  front-Before =
      All-map (λ x known t. omega (arith, (known t).1, next.other (known t).0)) (front r)
        next.ordered.known

  publish_terminal-IsOrdered :
      item_is_terminal item ≡ true
      → IsOrdered item.owner (with_relay r (publish_terminal r.relay item))
  unfolding publish_terminal
  publish_terminal-IsOrdered t = elim (Bool-cases (leb queue_capacity (length r.priority))) [
    | inl full ↦ record {
      settled = rw full next.ordered.settled;
      known = rw full known_before;
      fresh = tt;
      published = λ _. omega arith;
    }
    | inr room ↦ record {
      settled =
          rw (room, front-snoc r.sent (held r.phase) r.priority item)
            (IsSettled-snoc (front r) item next.ordered.settled front-Before);
      known =
          rw (room, front-snoc r.sent (held r.phase) r.priority item)
            (All-append _ (front r) (item ∷ []) known_before ((λ _. (refl, omega arith)), tt));
      fresh = tt;
      published = λ _. omega arith;
    }
  ]
    where
      known_before : All (Known (publish_terminal r.relay item)) (front r)
      known_before =
          All-map (λ x known h. (refl, omega (arith, (known h).1, next.other (known h).0)))
            (front r) next.ordered.known

  -- A queue that keeps some of its events and gets the new one.
  queued-IsOrdered :
      (queue : List RelayEvent) (wake : Bool)
      → All (Fresh r.relay) queue
      → IsOrdered item.owner (with_relay r (record (r.relay) { queue = queue; wake = wake }))
  queued-IsOrdered queue wake fresh = record {
    settled = next.ordered.settled;
    known = next.ordered.known;
    fresh = fresh;
    published = λ seen. omega (arith, next.ordered.published seen, next.later);
  }

  publish_queued-IsOrdered :
      item_is_terminal item ≡ false
      → IsOrdered item.owner (with_relay r (publish_queued r.relay item))
  unfolding publish_queued
  publish_queued-IsOrdered t = elim (Bool-cases (coalesces r.relay item)) [
    | inl yes_last ↦ rw yes_last (
        queued-IsOrdered _ true
          (All-set_last (Fresh r.relay) r.queue item next.ordered.fresh item_fresh))
    | inr no_last ↦ rw no_last (elim (Bool-cases (leb queue_capacity (length r.queue))) [
      | inl full ↦ rw full (when_full (remove_first item_is_progress r.queue) refl)
      | inr room ↦ rw room (
          queued-IsOrdered _ true
            (All-append (Fresh r.relay) r.queue (item ∷ []) next.ordered.fresh (item_fresh, tt)))
    ])
  ]
    where
      item_fresh : Fresh r.relay item
      item_fresh = (t, next.other)

      when_full :
          (dropped : Option (List RelayEvent))
          → remove_first item_is_progress r.queue ≡ dropped
          → IsOrdered item.owner (with_relay r (publish_full dropped r.relay item))
      when_full none e = queued-IsOrdered r.queue r.wake next.ordered.fresh
      when_full (some kept) e = queued-IsOrdered _ true (
          All-append (Fresh r.relay) kept (item ∷ [])
            (All-remove_first (Fresh r.relay) item_is_progress r.queue kept e next.ordered.fresh)
            (item_fresh, tt))

pub publish_to-IsOrdered :
    (m : ℕ) (r : Running) (event : PlaybackEvent) (owner : ℕ)
    → m ≤ owner
    → IsOrdered m r
    → IsOrdered owner (publish_to r event owner)
unfolding publish_to publish
publish_to-IsOrdered m r event owner later ordered =
    elim (Bool-cases (r.terminal_seen && (r.last_terminal_owner == owner))) [
      | inl refused ↦ rw refused (record {
        settled = ordered.settled;
        known = ordered.known;
        fresh = ordered.fresh;
        published = λ seen. omega (arith, ordered.published seen);
      })
      | inr accepted ↦ rw accepted (elim (Bool-cases (is_terminal event.kind)) [
        | inl t ↦ rw t (publish_terminal-IsOrdered m r item (next accepted) t)
        | inr t ↦ rw t (publish_queued-IsOrdered m r item (next accepted) t)
      ])
    ]
  where
    item : RelayEvent
    item = record { event = event; owner = owner }

    next : (r.terminal_seen && (r.last_terminal_owner == owner)) ≡ false → IsNext m r item
    next accepted = record {
      ordered = ordered;
      later = later;
      other = λ seen. ground (arith, ordered.published seen);
    }
