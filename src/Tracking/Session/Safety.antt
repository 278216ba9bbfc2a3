-- ===== src/Tracking/Session/Safety.antt =====
-- What holds of a session under every interleaving.
use mathlib.Core.Path.{subst}
use anime_portable.Prelude.{
  ℕ, suc, ◌+◌, ◌≤◌, ◌<◌, length, some, Option-cases, arith, ◌≡◌, inl, inr, Bool, List, ◌∷◌, [],
}
use anime_portable.Models.{PlayRequest, PlaybackEvent, Time}
use anime_portable.Tracking.State.{
  TrackedPending, TrackedState, observe, apply, begin_pending, discard_pending, commit_state,
  Checkpoint, refresh_snapshot, begin_checkpoint, end_checkpoint, new_playback,
}
use anime_portable.Tracking.Session.{
  Session, new_session, handle_event, commit_pending, start_checkpoint, finish_checkpoint,
  begin_load, discard_load, refresh, SnapshotAnswer,
}
use anime_portable.Tracking.Session.Steps.{
  Action, step, run, event, begin, snapshot, finish, relay, discard, commit, start,
}

-- The counters of a session after at most `n` actions.
pub record IsCounted (n : ℕ) (s : Session) : Type 0 where
  pub owner_pos : 0 < s.owner
  pub owner_le : s.owner ≤ suc n
  pub generation_le : s.generation ≤ suc n
  pub persisted_le : s.persisted ≤ s.generation
  pub next_owner : (p : TrackedPending) → s.pending ≡ some p → p.owner ≡ suc s.owner
  pub saving_le : (c : Checkpoint) → s.saving ≡ some c → c.generation ≤ s.generation

-- What one critical section does to the counters.
record Advances (n : ℕ) (a b : TrackedState) : Type 0 where
  owner : b.owner ≡ a.owner
  generation : a.generation ≤ b.generation
  generation_le : b.generation ≤ suc (suc n)
  persisted : b.persisted ≡ a.persisted
  pending : (p : TrackedPending) → b.pending ≡ some p → p.owner ≡ suc a.owner

observe-Advances :
    (n : ℕ) (a : TrackedState) (e : PlaybackEvent)
    → n < 9223372036854775808
    → a.generation ≤ suc n
    → ((p : TrackedPending) → a.pending ≡ some p → p.owner ≡ suc a.owner)
    → Advances n a (observe a e).0
unfolding observe apply
observe-Advances n a e small le next = elim (Option-cases a.pending) [
  | inl alone ↦ record {
    owner = ground arith;
    generation = ground arith;
    generation_le = ground arith;
    persisted = ground arith;
    pending = λ p h. ground arith;
  }
  | inr (q, pending) ↦ record {
    owner = ground arith;
    generation = ground arith;
    generation_le = ground arith;
    persisted = ground arith;
    pending = λ p h. ground (arith, next q pending);
  }
]

module _ (n : ℕ) (s : Session) (small : n < 9223372036854775808) (h : IsCounted n s) where
  handle_event-IsCounted : (e : PlaybackEvent) → IsCounted (suc n) (handle_event s e).0
  unfolding handle_event
  handle_event-IsCounted e =
      let a = observe-Advances n s.state e small h.generation_le h.next_owner in
      record {
        owner_pos = omega (arith, a.owner, h.owner_pos);
        owner_le = omega (arith, a.owner, h.owner_le);
        generation_le = a.generation_le;
        persisted_le = omega (arith, a.persisted, a.generation, h.persisted_le);
        next_owner = λ p e. omega (arith, a.owner, a.pending p e);
        saving_le = λ c e. omega (arith, a.generation, h.saving_le c e);
      }

  refresh-IsCounted : (answer : SnapshotAnswer) → IsCounted (suc n) (refresh s answer).0
  unfolding refresh refresh_snapshot
  refresh-IsCounted answer = record {
    owner_pos = ground arith;
    owner_le = ground arith;
    generation_le = ground arith;
    persisted_le = ground arith;
    next_owner = λ p e. ground (arith, h.next_owner p);
    saving_le = λ c e. ground (arith, h.saving_le c);
  }

  begin_load-IsCounted : (request : PlayRequest) → IsCounted (suc n) (begin_load s request)
  unfolding begin_load begin_pending new_playback
  begin_load-IsCounted request = record {
    owner_pos = h.owner_pos;
    owner_le = ground arith;
    generation_le = ground arith;
    persisted_le = h.persisted_le;
    next_owner = λ p e. ground arith;
    saving_le = h.saving_le;
  }

  discard_load-IsCounted : IsCounted (suc n) (discard_load s)
  unfolding discard_load discard_pending
  discard_load-IsCounted = record {
    owner_pos = h.owner_pos;
    owner_le = ground arith;
    generation_le = ground arith;
    persisted_le = h.persisted_le;
    next_owner = λ p e. ground arith;
    saving_le = h.saving_le;
  }

  commit_pending-IsCounted : IsCounted (suc n) (commit_pending s).0
  unfolding commit_pending commit_state
  commit_pending-IsCounted = elim (Option-cases s.pending) [
    | inl alone ↦ record {
      owner_pos = ground arith;
      owner_le = ground arith;
      generation_le = ground arith;
      persisted_le = ground arith;
      next_owner = λ p e. ground arith;
      saving_le = λ c e. ground (arith, h.saving_le c);
    }
    | inr (q, pending) ↦ record {
      owner_pos = ground (arith, h.next_owner q pending);
      owner_le = ground (arith, h.next_owner q pending);
      generation_le = ground arith;
      persisted_le = ground arith;
      next_owner = λ p e. ground arith;
      saving_le = λ c e. ground (arith, h.saving_le c);
    }
  ]

  start_checkpoint-IsCounted : IsCounted (suc n) (start_checkpoint s)
  unfolding start_checkpoint begin_checkpoint
  start_checkpoint-IsCounted = record {
    owner_pos = ground arith;
    owner_le = ground arith;
    generation_le = ground arith;
    persisted_le = ground arith;
    next_owner = λ p e. ground (arith, h.next_owner p);
    saving_le = λ c e. ground (arith, h.saving_le c);
  }

  finish_checkpoint-IsCounted :
      (accepted : Bool) (now : Time) → IsCounted (suc n) (finish_checkpoint s accepted now)
  unfolding finish_checkpoint end_checkpoint
  finish_checkpoint-IsCounted accepted now = elim (Option-cases s.saving) [
    | inl free ↦ record {
      owner_pos = ground arith;
      owner_le = ground arith;
      generation_le = ground arith;
      persisted_le = ground arith;
      next_owner = λ p e. ground (arith, h.next_owner p);
      saving_le = λ c e. ground (arith, h.saving_le c);
    }
    | inr (c, saving) ↦ record {
      owner_pos = ground arith;
      owner_le = ground arith;
      generation_le = ground arith;
      persisted_le = ground (arith, h.saving_le c saving);
      next_owner = λ p e. ground (arith, h.next_owner p);
      saving_le = λ c' e. ground (arith, h.saving_le c');
    }
  ]

  pub step-IsCounted : (action : Action) → IsCounted (suc n) (step s action)
  unfolding step
  step-IsCounted (event e) = handle_event-IsCounted e
  step-IsCounted (begin request) = begin_load-IsCounted request
  step-IsCounted discard = discard_load-IsCounted
  step-IsCounted commit = commit_pending-IsCounted
  step-IsCounted (snapshot answer) = refresh-IsCounted answer
  step-IsCounted start = start_checkpoint-IsCounted
  step-IsCounted (finish accepted now) = finish_checkpoint-IsCounted accepted now
  step-IsCounted (relay t) = record {
    owner_pos = h.owner_pos;
    owner_le = omega (arith, h.owner_le);
    generation_le = omega (arith, h.generation_le);
    persisted_le = h.persisted_le;
    next_owner = h.next_owner;
    saving_le = h.saving_le;
  }

run_from-IsCounted :
    (n : ℕ) (s : Session) (actions : List Action)
    → n + length actions < 9223372036854775808
    → IsCounted n s
    → IsCounted (n + length actions) (run s actions)
unfolding run
run_from-IsCounted n s [] small h = subst (λ k. IsCounted k s) (omega arith) h
run_from-IsCounted n s (action ∷ actions) small h =
    subst (λ k. IsCounted k (run (step s action) actions)) (omega arith)
      (run_from-IsCounted (suc n) (step s action) actions (omega arith)
        (step-IsCounted n s (omega arith) h action))

pub new-IsCounted : (request : PlayRequest) → IsCounted 0 (new_session request)
unfolding new_session
new-IsCounted request = record {
  owner_pos = omega arith;
  owner_le = omega arith;
  generation_le = omega arith;
  persisted_le = omega arith;
  next_owner = λ p e. ground arith;
  saving_le = λ c e. ground arith;
}

-- In fewer than 2 ^ 63 actions no counter wraps: the owner and the generation are at most one more than
-- the number of actions, the saved generation is never ahead, a pending playback has the next owner,
-- and a checkpoint under way is of a generation that has been.
pub run-IsCounted :
    (request : PlayRequest) (actions : List Action)
    → length actions < 9223372036854775808
    → IsCounted (length actions) (run (new_session request) actions)
run-IsCounted request actions small =
    subst (λ k. IsCounted k (run (new_session request) actions)) (omega arith)
      (run_from-IsCounted 0 (new_session request) actions (omega arith) (new-IsCounted request))
