-- ===== src/Tracking/Relay.antt =====
-- core/playback_tracking.go: trackedEventRelay, which hands events to the consumer in order without
-- letting a slow consumer block the player.
pub mod Order
pub mod Ordered
mod Sending
pub mod Delivery
pub mod Bounds
use anime_portable.Prelude.{
  ℕ, ◌+◌, leb, ◌==◌, length, u64, Bool, true, false, ◌&&◌, Option, none, some, List, [], ◌∷◌, ◌++◌,
  if◌then◌else◌,
}
use anime_portable.Models.{PlaybackEvent}
use anime_portable.Playback.{is_progress, is_terminal}
use anime_portable.Tracking.Queue.{queue_capacity, remove_first, is_last, set_last}

-- trackedRelayEvent
pub record RelayEvent : Type 0 where
  pub event : PlaybackEvent
  pub owner : ℕ  -- uint64

-- trackedEventRelay; `wake` is whether the wake channel, which holds one token, is full.
pub record Relay : Type 0 where
  pub queue : List RelayEvent
  pub priority : List RelayEvent
  pub last_terminal_owner : ℕ  -- uint64
  pub terminal_seen : Bool
  pub queue_generation : ℕ  -- uint64
  pub wake : Bool

-- newTrackedEventRelay
unfoldable pub new_relay : Relay
new_relay = record {
  queue = [];
  priority = [];
  last_terminal_owner = 0;
  terminal_seen = false;
  queue_generation = 0;
  wake = false;
}

abbrev pub item_is_progress : RelayEvent → Bool
item_is_progress item = is_progress item.event.kind

abbrev is_progress_of : ℕ → RelayEvent → Bool
is_progress_of owner item = (item.owner == owner) && is_progress item.event.kind

-- wakeRelay
wake_relay : Relay → Relay
wake_relay relay = record relay { wake = true }

-- publish for a terminal event: it clears the queue and goes before everything else.
publish_terminal : Relay → RelayEvent → Relay
unfolding wake_relay
publish_terminal relay item = wake_relay (record relay {
  terminal_seen = true;
  last_terminal_owner = item.owner;
  queue = [];
  queue_generation = u64 (relay.queue_generation + 1);
  priority =
      if leb queue_capacity (length relay.priority)
      then relay.priority
      else relay.priority ++ item ∷ [];
})

-- publish for a full queue: `dropped` is dropProgress.
publish_full : Option (List RelayEvent) → Relay → RelayEvent → Relay
unfolding wake_relay
publish_full none relay item = relay
publish_full (some dropped) relay item = wake_relay (record relay { queue = dropped ++ item ∷ [] })

-- The event is progress, and so is the last of the queue, of the same owner.
coalesces : Relay → RelayEvent → Bool
coalesces relay item =
    is_progress item.event.kind && is_last (is_progress_of item.owner) relay.queue

-- publish for any other event: progress replaces progress of its owner at the end of the queue.
publish_queued : Relay → RelayEvent → Relay
unfolding wake_relay publish_full coalesces
publish_queued relay item =
    if coalesces relay item
    then wake_relay (record relay { queue = set_last relay.queue item })
    else if leb queue_capacity (length relay.queue)
    then publish_full (remove_first item_is_progress relay.queue) relay item
    else wake_relay (record relay { queue = relay.queue ++ item ∷ [] })

-- publish
unfoldable pub publish : Relay → PlaybackEvent → ℕ → Relay
unfolding publish_terminal publish_queued
publish relay event owner =
    let item : RelayEvent = record { event = event; owner = owner } in
    if relay.terminal_seen && (relay.last_terminal_owner == owner)
    then relay
    else if is_terminal event.kind
    then publish_terminal relay item
    else publish_queued relay item

-- Where the goroutine of `run` stands: between two events, sending one of `priority`, sending one
-- of `queue` (deliverQueued, with the generation it was taken at), or returned.
pub data Phase : Type 0 where
  idle : Phase
  sending_priority : RelayEvent → Phase
  sending_queued : RelayEvent → ℕ → Phase
  returned : Phase

-- The relay with its goroutine, and what it has sent on `events`, oldest first.
pub record Running : Type 0 where
  pub relay : Relay
  pub open relay use *
  pub phase : Phase
  pub sent : List RelayEvent

unfoldable pub new_running : Running
unfolding new_relay
new_running = record { relay = new_relay; phase = idle; sent = [] }

take_queued : List RelayEvent → Running → Running
take_queued [] r = r
take_queued (item ∷ rest) r = record r {
  relay = record (r.relay) { queue = rest };
  phase = sending_queued item r.queue_generation;
}

take_priority : List RelayEvent → Running → Running
unfolding take_queued
take_priority [] r = take_queued r.queue r
take_priority (item ∷ rest) r = record r {
  relay = record (r.relay) { priority = rest };
  phase = sending_priority item;
}

-- The critical section at the top of the loop of `run`.
unfoldable pub take_next : Running → Running
unfolding take_priority
take_next r = elim r.phase [ idle ↦ take_priority r.priority r | _ ↦ r ]

-- `relay.events <- event` is chosen, by `run` or by deliverQueued. (A queued event can be sent
-- although a terminal has just cleared the queue: the check of the generation comes before.)
unfoldable pub send : Running → Running
send r = elim r.phase [
  | sending_priority item ↦ record r { phase = idle; sent = r.sent ++ item ∷ [] }
  | sending_queued item generation ↦ record r { phase = idle; sent = r.sent ++ item ∷ [] }
  | _ ↦ r
]

-- The check at the top of the loop of deliverQueued: a cleared event is dropped.
unfoldable pub recheck : Running → Running
recheck r = elim r.phase [
  | sending_queued item generation ↦
      if r.queue_generation == generation then r else record r { phase = idle }
  | _ ↦ r
]

-- `<-relay.wake` is chosen.
unfoldable pub take_wake : Running → Running
take_wake r = record r { relay = record (r.relay) { wake = false } }

-- `<-relay.stop` is chosen.
unfoldable pub halt : Running → Running
halt r = record r { phase = returned }

-- A publish by the session, at any time.
unfoldable pub publish_to : Running → PlaybackEvent → ℕ → Running
publish_to r event owner = record r { relay = publish r.relay event owner }
