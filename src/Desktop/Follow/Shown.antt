-- ===== src/Desktop/Follow/Shown.antt =====
-- What the follow star of apps/desktop/player_follow.go shows.
use mathlib.Core.Path.{subst}
use anime_portable.Desktop.Follow.{
  load_follow, FollowUpdate, toggle_follow, FollowWork, Follow, loaded, reads, changes_to, changed,
  work_follow, reload_follow, update_follow, show, show_of, follow_step, store_follow, follow_run,
  FollowAction, load_action, toggle_action, play_action, work_action, work_picked, update_action,
  update_picked,
}
use anime_portable.Prelude.{
  ℕ, suc, ◌+◌, ◌≤◌, ◌<◌, ◌==◌, if◌then◌else◌, Bool-cases, All, All-map, Str, str_eq, is_empty,
  str_eq_iff, str_eq_refl, ◌≡◌, refl, sym, ap, ◌∙◌, inl, inr, Bool, true, false, not, ◌&&◌, Option,
  none, some, List, [], ◌∷◌, arith, total, pick, pick-All, pick-total, allowed,
}

-- Changes that are running or whose end waits for the UI thread.
unfoldable work_change : FollowWork → ℕ
work_change (reads anime_id changes) = 0
work_change (changes_to anime_id following) = 1

update_change : FollowUpdate → ℕ
update_change (loaded anime_id changes answer) = 0
update_change (changed anime_id following success) = 1

count : Bool → ℕ
count true = 1
count false = 0

-- A read was started at a count that has been.
IsOld : ℕ → FollowWork → Type 0
IsOld changes (reads anime_id began) = began ≤ changes
IsOld changes (changes_to anime_id following) = Unit

-- An answer that is still of the same count is what is stored, unless a change is pending; a change that
-- ended well is stored.
IsTrue : Bool → ℕ → (Str → Bool) → FollowUpdate → Type 0
IsTrue pending changes stored (loaded anime_id began none) = began ≤ changes
IsTrue pending changes stored (loaded anime_id began (some following)) =
    (began ≤ changes) × (began ≡ changes → pending ≡ false → following ≡ stored anime_id)
IsTrue pending changes stored (changed anime_id following true) = stored anime_id ≡ not following
IsTrue pending changes stored (changed anime_id following false) = Unit

pub record IsInStep (s : Follow) : Type 0 where
  one : total work_change s.works + total update_change s.updates ≡ count s.pending
  old : All (IsOld s.changes) s.works
  true_ : All (IsTrue s.pending s.changes s.stored) s.updates

later_work : (a b : ℕ) → a ≤ b → (w : FollowWork) → IsOld a w → IsOld b w
unfolding IsOld
later_work a b le (reads anime_id began) h = omega (arith, le, h)
later_work a b le (changes_to anime_id following) h = tt

-- A count that has gone on leaves the answers of the old one untrusted.
later_update :
    (p q : Bool) (a b : ℕ) (stored : Str → Bool)
    → a < b
    → (u : FollowUpdate) → IsTrue p a stored u
    → IsTrue q b stored u
unfolding IsTrue
later_update p q a b stored lt (loaded anime_id began none) h = omega (arith, lt, h)
later_update p q a b stored lt (loaded anime_id began (some following)) h =
    (omega (arith, lt, h.0), λ same free. absurd (omega (arith, lt, h.0, same)))
later_update p q a b stored lt (changed anime_id following true) h = h
later_update p q a b stored lt (changed anime_id following false) h = tt

-- While a change is pending that has not ended, the store may change.
stored_update :
    (changes : ℕ) (stored new : Str → Bool) (updates : List FollowUpdate)
    → total update_change updates ≡ 0
    → All (IsTrue true changes stored) updates
    → All (IsTrue true changes new) updates
unfolding IsTrue update_change
stored_update changes stored new [] none_ended h = tt
stored_update changes stored new (loaded anime_id began none ∷ us) none_ended h =
    (h.0, stored_update changes stored new us (omega (arith, none_ended)) h.1)
stored_update changes stored new (loaded anime_id began (some following) ∷ us) none_ended h =
    ((h.0.0, λ same free. cc), stored_update changes stored new us (omega (arith, none_ended)) h.1)
stored_update changes stored new (changed anime_id following success ∷ us) none_ended h =
    absurd (omega (arith, none_ended))

load-IsInStep : (anime_id : Str) (s : Follow) → IsInStep s → IsInStep (load_follow anime_id s)
unfolding load_follow work_change IsOld
load-IsInStep anime_id s is = record {
  one = omega (arith, is.one);
  old = (omega arith, is.old);
  true_ = is.true_;
}

toggle-IsInStep :
    (anime_id : Str) (following : Bool) (s : Follow)
    → IsInStep s
    → IsInStep (toggle_follow anime_id following s)
unfolding toggle_follow work_change count IsOld
toggle-IsInStep anime_id following s is = elim (Bool-cases s.pending) [
  | inl busy ↦ subst IsInStep (ground arith) is
  | inr free ↦ subst IsInStep (ground arith) (started free)
]
  where
    started :
        s.pending ≡ false
        → IsInStep (record s {
          pending = true;
          changes = s.changes + 1;
          works = changes_to anime_id following ∷ s.works;
        })
    started free = record {
      one = omega (arith, is.one, ap count free);
      old = (tt, All-map (later_work s.changes (s.changes + 1) (omega arith)) s.works is.old);
      true_ =
          All-map (later_update s.pending true s.changes (s.changes + 1) s.stored (omega arith))
            s.updates is.true_;
    }

-- What a state owes once a work has been taken out of it.
record IsTaken (w : FollowWork) (s : Follow) : Type 0 where
  one : work_change w + total work_change s.works + total update_change s.updates ≡ count s.pending
  now : IsOld s.changes w
  old : All (IsOld s.changes) s.works
  true_ : All (IsTrue s.pending s.changes s.stored) s.updates

busy_of : (b : Bool) (n : ℕ) → suc n ≡ count b → (b ≡ true) × (n ≡ 0)
unfolding count
busy_of true n e = (refl, omega (arith, e))
busy_of false n e = absurd (omega (arith, e))

work-IsInStep :
    (w : FollowWork) (success : Bool) (s : Follow)
    → IsTaken w s
    → IsInStep (work_follow w success s)
unfolding work_follow work_change update_change IsOld IsTrue
work-IsInStep (reads anime_id began) true s is = record {
  one = omega (arith, is.one);
  old = is.old;
  true_ = ((is.now, λ same free. refl), is.true_);
}
work-IsInStep (reads anime_id began) false s is = record {
  one = omega (arith, is.one);
  old = is.old;
  true_ = (is.now, is.true_);
}
work-IsInStep (changes_to anime_id following) false s is = record {
  one = omega (arith, is.one);
  old = is.old;
  true_ = (tt, is.true_);
}
work-IsInStep (changes_to anime_id following) true s is =
    let new = store_follow s.stored anime_id following in
    let (busy, others) =
      busy_of s.pending (total work_change s.works + total update_change s.updates)
        (omega (arith, is.one)) in
    record {
      one = omega (arith, is.one);
      old = is.old;
      true_ = (
        ground (arith, str_eq_refl anime_id),
        subst (λ b. All (IsTrue b s.changes new) s.updates) (sym busy)
            (stored_update s.changes s.stored new s.updates (omega (arith, others))
              (subst (λ b. All (IsTrue b s.changes s.stored) s.updates) busy is.true_)),
      );
    }

-- And once an update has been taken out.
record IsDelivered (u : FollowUpdate) (s : Follow) : Type 0 where
  one :
      update_change u + total work_change s.works + total update_change s.updates ≡ count s.pending
  now : IsTrue s.pending s.changes s.stored u
  old : All (IsOld s.changes) s.works
  true_ : All (IsTrue s.pending s.changes s.stored) s.updates

show-IsInStep : (o : Option Bool) (s : Follow) → IsInStep s → IsInStep (show o s)
show-IsInStep none s is = is
show-IsInStep (some following) s is = record { one = is.one; old = is.old; true_ = is.true_ }

reload-IsInStep : (o : Option Bool) (s : Follow) → IsInStep s → IsInStep (reload_follow o s)
unfolding reload_follow
reload-IsInStep (some following) s is = is
reload-IsInStep none s is = elim (Bool-cases (is_empty s.playing)) [
  | inl empty ↦ subst (λ b. IsInStep (if b then s else load_follow s.playing s)) (sym empty) is
  | inr full ↦
      subst (λ b. IsInStep (if b then s else load_follow s.playing s)) (sym full)
        (load-IsInStep s.playing s is)
]

update-IsInStep : (u : FollowUpdate) (s : Follow) → IsDelivered u s → IsInStep (update_follow u s)
unfolding update_follow update_change count
update-IsInStep (loaded anime_id began answer) s is =
    show-IsInStep (show_of (loaded anime_id began answer) s) s
      (record { one = omega (arith, is.one); old = is.old; true_ = is.true_ })
update-IsInStep (changed anime_id following success) s is =
    let showing = show_of (changed anime_id following success) s in
    let ended : Follow = record s {
      pending = false;
      changes = s.changes + 1;
      failures = if success then s.failures else s.failures + 1;
    } in
    let (busy, others) =
      busy_of s.pending (total work_change s.works + total update_change s.updates)
        (omega (arith, is.one)) in
    reload-IsInStep showing (show showing ended) (
      show-IsInStep showing ended (record {
        one = others;
        old = All-map (later_work s.changes (s.changes + 1) (omega arith)) s.works is.old;
        true_ =
            All-map (later_update s.pending false s.changes (s.changes + 1) s.stored (omega arith))
              s.updates is.true_;
      }))

taken :
    (s : Follow) (i : ℕ) (w : FollowWork) (rest : List FollowWork)
    → IsInStep s
    → pick i s.works ≡ some (w, rest)
    → IsTaken w (record s { works = rest })
taken s i w rest is e =
    let (now, old) = pick-All (IsOld s.changes) i s.works w rest e is.old in
    record {
      one = omega (arith, is.one, pick-total work_change i s.works w rest e);
      now = now;
      old = old;
      true_ = is.true_;
    }

delivered :
    (s : Follow) (i : ℕ) (u : FollowUpdate) (rest : List FollowUpdate)
    → IsInStep s
    → pick i s.updates ≡ some (u, rest)
    → IsDelivered u (record s { updates = rest })
delivered s i u rest is e =
    let (now, others) =
      pick-All (IsTrue s.pending s.changes s.stored) i s.updates u rest e is.true_ in
    record {
      one = omega (arith, is.one, pick-total update_change i s.updates u rest e);
      now = now;
      old = is.old;
      true_ = others;
    }

step-IsInStep : (s : Follow) (action : FollowAction) → IsInStep s → IsInStep (follow_step s action)
unfolding follow_step
step-IsInStep s (load_action anime_id) is = load-IsInStep anime_id s is
step-IsInStep s (toggle_action anime_id following) is = toggle-IsInStep anime_id following s is
step-IsInStep s (play_action anime_id) is = record { one = is.one; old = is.old; true_ = is.true_ }
step-IsInStep s (work_action i success) is =
    from (pick i s.works) (λ w rest e. taken s i w rest is e)
  where
    from :
        (o : Option (FollowWork × List FollowWork))
        → ((w : FollowWork) (rest : List FollowWork)
            → o ≡ some (w, rest)
            → IsTaken w (record s { works = rest }))
        → IsInStep (work_picked o success s)
    from none known = is
    from (some (w, rest)) known =
        work-IsInStep w success (record s { works = rest }) (known w rest refl)
step-IsInStep s (update_action i) is =
    from (pick i s.updates) (λ u rest e. delivered s i u rest is e)
  where
    from :
        (o : Option (FollowUpdate × List FollowUpdate))
        → ((u : FollowUpdate) (rest : List FollowUpdate)
            → o ≡ some (u, rest)
            → IsDelivered u (record s { updates = rest }))
        → IsInStep (update_picked o s)
    from none known = is
    from (some (u, rest)) known =
        update-IsInStep u (record s { updates = rest }) (known u rest refl)

run-IsInStep :
    (actions : List FollowAction) (s : Follow) → IsInStep s → IsInStep (follow_run s actions)
unfolding follow_run
run-IsInStep [] s is = is
run-IsInStep (action ∷ actions) s is =
    run-IsInStep actions (follow_step s action) (step-IsInStep s action is)

-- A player that has just been made.
abbrev pub new_follow : (Str → Bool) → Follow
new_follow stored = record {
  pending = false;
  changes = 0;
  playing = [];
  stored = stored;
  works = [];
  updates = [];
  shown = none;
  failures = 0;
}

new-IsInStep : (stored : Str → Bool) → IsInStep (new_follow stored)
unfolding count
new-IsInStep stored = record { one = omega arith; old = tt; true_ = tt }

show-pending : (o : Option Bool) (s : Follow) → (show o s).pending ≡ s.pending
show-pending none s = refl
show-pending (some following) s = refl

-- What an update in step shows.
show-stored :
    (u : FollowUpdate) (s : Follow) (following : Bool)
    → IsDelivered u s
    → show_of u s ≡ some following
    → (update_follow u s).pending ≡ false
    → following ≡ s.stored s.playing
unfolding show_of update_follow IsTrue
show-stored (loaded anime_id began none) s following is e free = cc
show-stored (loaded anime_id began (some answer)) s following is e free =
    let (passes, same) =
      allowed ((began == s.changes) && str_eq s.playing anime_id) answer following e in
    sym same
    ∙ is.now.1 (ground arith)
        (sym (show-pending (show_of (loaded anime_id began (some answer)) s) s) ∙ free)
    ∙ ap s.stored (sym ((str_eq_iff s.playing anime_id).0 (ground arith)))
show-stored (changed anime_id was false) s following is e free = cc
show-stored (changed anime_id was true) s following is e free =
    let (passes, same) = allowed (str_eq s.playing anime_id) (not was) following e in
    sym same ∙ sym is.now ∙ ap s.stored (sym ((str_eq_iff s.playing anime_id).0 passes))

-- Whatever works and updates have run, in any order: when an update shows the star and leaves no change
-- pending, it shows what is stored for the anime that is being played.
pub star_stored :
    (stored : Str → Bool) (actions : List FollowAction) (i : ℕ) (u : FollowUpdate)
    (rest : List FollowUpdate) (following : Bool)
    → let s = follow_run (new_follow stored) actions in
      pick i s.updates ≡ some (u, rest)
      → show_of u (record s { updates = rest }) ≡ some following
      → (update_follow u (record s { updates = rest })).pending ≡ false
      → following ≡ s.stored s.playing
star_stored stored actions i u rest following e shows free =
    let s = follow_run (new_follow stored) actions in
    show-stored u (record s { updates = rest }) following
      (delivered s i u rest (run-IsInStep actions (new_follow stored) (new-IsInStep stored)) e)
      shows free
