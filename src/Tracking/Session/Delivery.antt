-- ===== src/Tracking/Session/Delivery.antt =====
-- What the consumer of a session's events gets, under every interleaving.
use mathlib.Core.Path.{subst}
use anime_portable.Prelude.{
  ℕ, suc, ◌+◌, ◌≤◌, ◌<◌, length, Option-cases, arith, ◌==◌, List, Bool-cases, ◌≡◌, ◌∷◌, ◌||◌, [],
  false, inl, inr, refl, sym,
}
use anime_portable.Models.{PlayRequest, PlaybackEvent}
use anime_portable.Tracking.State.{
  TrackedState, observe, apply, begin_pending, discard_pending, commit_state, refresh_snapshot,
  end_checkpoint,
}
use anime_portable.Tracking.Relay.{Running, publish_to}
use anime_portable.Tracking.Relay.Order.{IsSettled}
use anime_portable.Tracking.Relay.Delivery.{
  RelayReach, started, continued, publishes, takes, sends, rechecks, wakes, halts,
  RelayReach-IsSettled,
}
use anime_portable.Tracking.Session.{
  Session, new_session, handle_event, commit_pending, start_checkpoint, finish_checkpoint,
  begin_load, discard_load, refresh, publish_all, is_pending_owner, SnapshotAnswer,
}
use anime_portable.Tracking.Session.Steps.{
  Turn, turn, Action, event, begin, discard, commit, snapshot, start, finish, relay, step, run,
}
use anime_portable.Tracking.Session.Safety.{IsCounted, new-IsCounted, step-IsCounted}

-- The relay was reached by publishes whose owners never decrease, and none is later than the
-- current episode's.
record IsRelayed (s : Session) : Type 0 where
  latest : ℕ
  reach : RelayReach latest s.running
  latest_le : latest ≤ s.owner

-- The owner that observe returns for an event that is relayed at once is the current one's.
observe-owner :
    (s : TrackedState) (e : PlaybackEvent)
    → let (state, due, owner) = observe s e in
      ((owner == 0) || is_pending_owner state.pending owner) ≡ false → owner ≡ s.owner
unfolding observe is_pending_owner apply
observe-owner s e = elim (Option-cases s.pending) [
  | inl alone ↦ ground arith
  | inr (p, pending) ↦ ground arith
]

observe_keeps_owner : (s : TrackedState) (e : PlaybackEvent) → (observe s e).0.owner ≡ s.owner
unfolding observe apply
observe_keeps_owner s e = ground arith

publish_all-reach :
    (m : ℕ) (running : Running) (events : List PlaybackEvent) (owner : ℕ)
    → m ≤ owner
    → RelayReach m running
    → (m' : ℕ) × RelayReach m' (publish_all running events owner) × (m' ≤ owner)
unfolding publish_all
publish_all-reach m running [] owner later reach = (m, reach, later)
publish_all-reach m running (e ∷ events) owner later reach =
    publish_all-reach owner (publish_to running e owner) events owner (omega arith)
      (continued reach (publishes m running e owner later))

module _ (n : ℕ) (s : Session) (counted : IsCounted n s) (h : IsRelayed s) where
  handle_event-IsRelayed : (e : PlaybackEvent) → IsRelayed (handle_event s e).0
  unfolding handle_event
  handle_event-IsRelayed e =
      elim (Bool-cases (
        ((observe s.state e).2 == 0)
        || is_pending_owner (observe s.state e).0.pending (observe s.state e).2)) [
          | inl kept ↦ record {
            latest = h.latest;
            reach = rw kept h.reach;
            latest_le = omega (arith, observe_keeps_owner s.state e, h.latest_le);
          }
          | inr relayed ↦ record {
            latest = (observe s.state e).2;
            reach = rw relayed (
                continued h.reach (
                  publishes h.latest s.running e (observe s.state e).2
                    (omega (arith, observe-owner s.state e relayed, h.latest_le))));
            latest_le =
                omega (arith, observe-owner s.state e relayed, observe_keeps_owner s.state e);
          }
        ]

  commit_pending-IsRelayed : IsRelayed (commit_pending s).0
  unfolding commit_pending commit_state
  commit_pending-IsRelayed = elim (Option-cases s.pending) [
    | inl alone ↦ simp alone h
    | inr (p, pending) ↦
        let (m, reach, le) =
          publish_all-reach h.latest s.running p.events p.owner
            (omega (arith, counted.next_owner p pending, h.latest_le)) h.reach in
        simp pending (record { latest = m; reach = reach; latest_le = le })
  ]

  refresh-owner : (answer : SnapshotAnswer) → (refresh s answer).0.owner ≡ s.owner
  unfolding refresh refresh_snapshot
  refresh-owner answer = ground arith

  -- An action that leaves the relay and the owner alone.
  same-IsRelayed : (s' : Session) → s'.running ≡ s.running → s'.owner ≡ s.owner → IsRelayed s'
  same-IsRelayed s' r o = record {
    latest = h.latest;
    reach = subst (RelayReach h.latest) (sym r) h.reach;
    latest_le = omega (arith, o, h.latest_le);
  }

  turn-reach : (t : Turn) → RelayReach h.latest (turn t s.running)
  unfolding turn
  turn-reach Turn.takes = continued h.reach (takes h.latest s.running)
  turn-reach Turn.sends = continued h.reach (sends h.latest s.running)
  turn-reach Turn.rechecks = continued h.reach (rechecks h.latest s.running)
  turn-reach Turn.wakes = continued h.reach (wakes h.latest s.running)
  turn-reach Turn.halts = continued h.reach (halts h.latest s.running)

  step-IsRelayed : (action : Action) → IsRelayed (step s action)
  unfolding step begin_load begin_pending discard_load discard_pending start_checkpoint
      finish_checkpoint end_checkpoint refresh
  step-IsRelayed (event e) = handle_event-IsRelayed e
  step-IsRelayed (begin request) = same-IsRelayed _ refl refl
  step-IsRelayed discard = same-IsRelayed _ refl refl
  step-IsRelayed commit = commit_pending-IsRelayed
  step-IsRelayed (snapshot answer) = same-IsRelayed _ refl (refresh-owner answer)
  step-IsRelayed start = same-IsRelayed _ (ground arith) (ground arith)
  step-IsRelayed (finish accepted now) = same-IsRelayed _ (ground arith) (ground arith)
  step-IsRelayed (relay t) = record {
    latest = h.latest;
    reach = turn-reach t;
    latest_le = h.latest_le;
  }

run_from-IsRelayed :
    (n : ℕ) (s : Session) (actions : List Action)
    → n + length actions < 9223372036854775808
    → IsCounted n s
    → IsRelayed s
    → IsRelayed (run s actions)
unfolding run
run_from-IsRelayed n s [] small counted h = h
run_from-IsRelayed n s (action ∷ actions) small counted h =
    run_from-IsRelayed (suc n) (step s action) actions (omega arith)
      (step-IsCounted n s (omega arith) counted action) (step-IsRelayed n s counted h action)

new-IsRelayed : (request : PlayRequest) → IsRelayed (new_session request)
unfolding new_session
new-IsRelayed request = record { latest = 0; reach = started; latest_le = omega arith }

-- Whatever the player, the store, the caller and the relay's goroutine do, in any order, for fewer
-- than 2 ^ 63 actions: what the consumer gets after the terminal event of an episode belongs to
-- later episodes.
pub run-IsSettled :
    (request : PlayRequest) (actions : List Action)
    → length actions < 9223372036854775808
    → IsSettled (run (new_session request) actions).running.sent
run-IsSettled request actions small =
    RelayReach-IsSettled
      (run_from-IsRelayed 0 (new_session request) actions (omega arith) (new-IsCounted request)
        (new-IsRelayed request)).reach
