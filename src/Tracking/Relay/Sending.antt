-- ===== src/Tracking/Relay/Sending.antt =====
-- The goroutine of the relay in core/playback_tracking.go, and the relay's order.
use mathlib.Core.Path.{subst}
use mathlib.Core.List.{append_assoc, append-nil}
use anime_portable.Prelude.{
  ℕ, ◌==◌, All, All-append, Bool-cases, List, [], ◌∷◌, ◌++◌, ◌≡◌, refl, inl, inr, arith, All-map,
}
use anime_portable.Tracking.Relay.{
  RelayEvent, Relay, Phase, idle, sending_priority, sending_queued, returned, Running, take_next,
  send, recheck,
}
use anime_portable.Tracking.Relay.Order.{
  IsSettled, IsSettled-snoc, IsSettled-drop_one, All-drop_one,
}
use anime_portable.Tracking.Relay.Ordered.{held, IsOrdered}

-- The actions of the goroutine split on its phase, and on the two lists.
module _ (m : ℕ) (sent : List RelayEvent) where
  abbrev pub at_phase : Relay → Phase → Running
  at_phase relay phase = record { relay = relay; phase = phase; sent = sent }

  take_idle :
      (priority queue : List RelayEvent) (relay : Relay)
      → let r = at_phase (record relay { queue = queue; priority = priority }) idle in
        IsOrdered m r → IsOrdered m (take_next r)
  unfolding take_next
  take_idle [] [] relay ordered = ordered
  take_idle [] (x ∷ queue) relay ordered = record {
    settled = IsSettled-snoc sent x (subst IsSettled (append-nil sent) ordered.settled) (
        All-map (λ y known t. omega (arith, (known t).1, ordered.fresh.0.1 (known t).0)) sent
          (subst (All _) (append-nil sent) ordered.known));
    known =
        All-append _ sent (x ∷ []) (subst (All _) (append-nil sent) ordered.known)
          ((λ t. cc (ordered.fresh.0.0)), tt);
    fresh = ordered.fresh.1;
    published = ordered.published;
  }
  take_idle (x ∷ priority) queue relay ordered = record {
    settled = ordered.settled;
    known = ordered.known;
    fresh = ordered.fresh;
    published = ordered.published;
  }

  pub take_at :
      (phase : Phase) (relay : Relay)
      → IsOrdered m (at_phase relay phase)
      → IsOrdered m (take_next (at_phase relay phase))
  unfolding take_next
  take_at idle relay ordered = take_idle relay.priority relay.queue relay ordered
  take_at (sending_priority x) relay ordered = ordered
  take_at (sending_queued x g) relay ordered = ordered
  take_at returned relay ordered = ordered

  sent_one :
      (relay : Relay) (x : RelayEvent) (phase : Phase)
      → held phase ≡ x ∷ []
      → IsOrdered m (at_phase relay phase)
      → IsOrdered m (record { relay = relay; phase = idle; sent = sent ++ x ∷ [] })
  sent_one relay x phase e ordered = record {
    settled = rw (append_assoc) (rw e at ordered.settled);
    known = rw (append_assoc) (rw e at ordered.known);
    fresh = ordered.fresh;
    published = ordered.published;
  }

  pub send_at :
      (phase : Phase) (relay : Relay)
      → IsOrdered m (at_phase relay phase)
      → IsOrdered m (send (at_phase relay phase))
  unfolding send
  send_at idle relay ordered = ordered
  send_at (sending_priority x) relay ordered = sent_one relay x (sending_priority x) refl ordered
  send_at (sending_queued x g) relay ordered = sent_one relay x (sending_queued x g) refl ordered
  send_at returned relay ordered = ordered

  -- The event in hand is given up.
  pub give_up :
      (phase after : Phase) (relay : Relay)
      → held after ≡ []
      → IsOrdered m (at_phase relay phase)
      → IsOrdered m (at_phase relay after)
  give_up idle after relay e ordered = record {
    settled = rw e ordered.settled;
    known = rw e ordered.known;
    fresh = ordered.fresh;
    published = ordered.published;
  }
  give_up returned after relay e ordered = record {
    settled = rw e ordered.settled;
    known = rw e ordered.known;
    fresh = ordered.fresh;
    published = ordered.published;
  }
  give_up (sending_priority x) after relay e ordered = record {
    settled = rw e (IsSettled-drop_one sent x relay.priority ordered.settled);
    known = rw e (All-drop_one _ sent x relay.priority ordered.known);
    fresh = ordered.fresh;
    published = ordered.published;
  }
  give_up (sending_queued x g) after relay e ordered = record {
    settled = rw e (IsSettled-drop_one sent x relay.priority ordered.settled);
    known = rw e (All-drop_one _ sent x relay.priority ordered.known);
    fresh = ordered.fresh;
    published = ordered.published;
  }

  pub recheck_at :
      (phase : Phase) (relay : Relay)
      → IsOrdered m (at_phase relay phase)
      → IsOrdered m (recheck (at_phase relay phase))
  unfolding recheck
  recheck_at idle relay ordered = ordered
  recheck_at (sending_priority x) relay ordered = ordered
  recheck_at (sending_queued x g) relay ordered = elim (Bool-cases (relay.queue_generation == g)) [
    | inl same ↦ rw same ordered
    | inr cleared ↦ rw cleared (give_up (sending_queued x g) idle relay refl ordered)
  ]
  recheck_at returned relay ordered = ordered
