-- ===== src/Tracking/Relay/Delivery.antt =====
-- The actions of the relay and its users, and the order in which the consumer gets the events.
use anime_portable.Prelude.{ℕ, ◌≤◌, refl}
use anime_portable.Models.{PlaybackEvent}
use anime_portable.Tracking.Relay.{
  returned, Running, new_running, publish_to, take_next, send, recheck, take_wake, halt,
}
use anime_portable.Tracking.Relay.Order.{IsSettled, IsSettled-prefix}
use anime_portable.Tracking.Relay.Ordered.{IsOrdered, new-IsOrdered, publish_to-IsOrdered}
use anime_portable.Tracking.Relay.Sending.{take_at, send_at, give_up, recheck_at}

-- One action of the relay's goroutine or of the session, which publishes with owners that never
-- decrease; `latest` goes along.
pub data RelayStep : ℕ → Running → ℕ → Running → Type 0 where
  publishes :
      (m : ℕ) (r : Running) (event : PlaybackEvent) (owner : ℕ)
      → m ≤ owner
      → RelayStep m r owner (publish_to r event owner)
  takes : (m : ℕ) (r : Running) → RelayStep m r m (take_next r)
  sends : (m : ℕ) (r : Running) → RelayStep m r m (send r)
  rechecks : (m : ℕ) (r : Running) → RelayStep m r m (recheck r)
  wakes : (m : ℕ) (r : Running) → RelayStep m r m (take_wake r)
  halts : (m : ℕ) (r : Running) → RelayStep m r m (halt r)

pub data RelayReach : ℕ → Running → Type 0 where
  started : RelayReach 0 new_running
  continued : {m m' : ℕ} {r r' : Running} → RelayReach m r → RelayStep m r m' r' → RelayReach m' r'

RelayStep-IsOrdered :
    {m m' : ℕ} {r r' : Running} → RelayStep m r m' r' → IsOrdered m r → IsOrdered m' r'
unfolding halt take_wake
RelayStep-IsOrdered (publishes m r event owner later) o =
    publish_to-IsOrdered m r event owner later o
RelayStep-IsOrdered (takes m r) o = take_at m r.sent r.phase r.relay o
RelayStep-IsOrdered (sends m r) o = send_at m r.sent r.phase r.relay o
RelayStep-IsOrdered (rechecks m r) o = recheck_at m r.sent r.phase r.relay o
RelayStep-IsOrdered (wakes m r) o = record {
  settled = o.settled;
  known = o.known;
  fresh = o.fresh;
  published = o.published;
}
RelayStep-IsOrdered (halts m r) o = give_up m r.sent r.phase returned r.relay refl o

pub RelayReach-IsSettled : {m : ℕ} {r : Running} → RelayReach m r → IsSettled r.sent
RelayReach-IsSettled {m} {r} reach = IsSettled-prefix r.sent _ (ordered reach).settled
  where
    ordered : {m : ℕ} {r : Running} → RelayReach m r → IsOrdered m r
    ordered started = new-IsOrdered
    ordered (continued before step) = RelayStep-IsOrdered step (ordered before)
