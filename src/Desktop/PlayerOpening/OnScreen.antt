-- ===== src/Desktop/PlayerOpening/OnScreen.antt =====
-- What playerOpening of apps/desktop/player_opening.go shows, and which of its lookups are cancelled.
use mathlib.Core.Path.{subst}
use anime_portable.Desktop.PlayerOpening.{
  opening_step, opening_run, FoundOpening, PlayerOpening, show_answer, OpeningAction,
  lookup_answered, no_lookup, opening_updated, plays, OpeningUpdate, OpeningLookup, answers,
  runs_update, stop_lookup, new_load, stops,
}
use anime_portable.Desktop.PlayerOpening.Single.{
  IsSingle, stop-IsSingle, one_if, IsOnScreen, lookups_of, playing-IsSingle, of_update, IsHeld,
  of_shown, stopped-All, of_lookup,
}
use anime_portable.Prelude.{
  ℕ, ◌+◌, ◌≤◌, ◌<◌, ◌==◌, if◌then◌else◌, Bool-cases, length, All, In, All-map, ◌≡◌, refl, sym, inl,
  inr, ◌&&◌, Option, none, some, List, [], ◌∷◌, arith, pick, total, there, pick-total, pick-All,
}

lookup_answered-IsSingle :
    (answer : Option FoundOpening) (i : ℕ) (s : PlayerOpening)
    → IsSingle s
    → IsSingle (lookup_answered answer (pick i s.lookups) s)
lookup_answered-IsSingle answer i s single = from (pick i s.lookups) refl
  where
    from :
        (o : Option (OpeningLookup × List OpeningLookup))
        → pick i s.lookups ≡ o
        → IsSingle (lookup_answered answer o s)
    from none e = single
    from (some (lookup, rest)) e = record {
      asked = single.asked;
      once = λ g. omega (arith, pick-total (of_lookup g) i s.lookups lookup rest e, single.once g);
      fresh = λ g after.
          omega (arith, pick-total (of_lookup g) i s.lookups lookup rest e, single.fresh g after);
      on_screen = single.on_screen;
      held =
          All-map (λ other held. later other held) rest
            (pick-All (IsHeld s.cancel s.cancelled) i s.lookups lookup rest e single.held).1;
    }
      where
        later :
            (other : OpeningLookup)
            → IsHeld s.cancel s.cancelled other
            → IsHeld s.cancel (lookup.number ∷ s.cancelled) other
        later other (inl same) = inl same
        later other (inr j) = inr (there j)

-- An update that is taken off and shown or not.
show-IsSingle :
    (g : ℕ) (answer : Option FoundOpening) (s : PlayerOpening)
    → ((h : ℕ) → one_if (g == h) + lookups_of h s ≤ 1)
    → ((h : ℕ) → s.asked < h → one_if (g == h) + lookups_of h s ≡ 0)
    → IsSingle s
    → IsSingle (show_answer g answer s)
unfolding show_answer
show-IsSingle g none s once fresh single = single
show-IsSingle g (some opening) s once fresh single =
    elim (Bool-cases (opening.found && (s.view == g))) [
      | inr hidden ↦ subst (λ b. IsSingle (if b then shows else s)) (sym hidden) single
      | inl visible ↦
          subst (λ b. IsSingle (if b then shows else s)) (sym visible)
            (record {
              asked = single.asked;
              once = λ h. omega (arith, once h);
              fresh = λ h after. omega (arith, fresh h after);
              on_screen = (ground (arith, visible), single.on_screen);
              held = single.held;
            })
    ]
  where
    shows : PlayerOpening
    shows = record s {
      shown = record { generation = g; on_screen = s.view; opening = opening } ∷ s.shown;
    }

updated-IsSingle :
    (i : ℕ) (s : PlayerOpening) → IsSingle s → IsSingle (opening_updated (pick i s.updates) s)
updated-IsSingle i s single = from (pick i s.updates) refl
  where
    from :
        (o : Option (OpeningUpdate × List OpeningUpdate))
        → pick i s.updates ≡ o
        → IsSingle (opening_updated o s)
    from none e = single
    from (some (update, rest)) e =
        let taken : (h : ℕ)
            → total (of_update h) s.updates ≡ of_update h update + total (of_update h) rest =
          λ h. pick-total (of_update h) i s.updates update rest e in
        show-IsSingle update.generation update.answer (record s { updates = rest })
          (λ h. omega (arith, taken h, single.once h))
          (λ h after. omega (arith, taken h, single.fresh h after))
          (record {
            asked = single.asked;
            once = λ h. omega (arith, taken h, single.once h);
            fresh = λ h after. omega (arith, taken h, single.fresh h after);
            on_screen = single.on_screen;
            held = single.held;
          })

step-IsSingle :
    (s : PlayerOpening) (action : OpeningAction) → IsSingle s → IsSingle (opening_step s action)
unfolding opening_step
step-IsSingle s new_load single = record {
  asked = omega (arith, single.asked);
  once = single.once;
  fresh = single.fresh;
  on_screen = single.on_screen;
  held = single.held;
}
step-IsSingle s stops single = stop-IsSingle s single
step-IsSingle s (plays request length) single = playing-IsSingle request length s single
step-IsSingle s (answers i answer) single = lookup_answered-IsSingle answer i s single
step-IsSingle s (runs_update i) single = updated-IsSingle i s single

run-IsSingle :
    (actions : List OpeningAction) (s : PlayerOpening)
    → IsSingle s
    → IsSingle (opening_run s actions)
unfolding opening_run
run-IsSingle [] s single = single
run-IsSingle (action ∷ actions) s single =
    run-IsSingle actions (opening_step s action) (step-IsSingle s action single)

none-IsSingle : IsSingle no_lookup
none-IsSingle = record {
  asked = omega arith;
  once = λ g. omega arith;
  fresh = λ g after. refl;
  on_screen = tt;
  held = tt;
}

-- However the loads, the playback states, the answers and the updates of the user interface follow each
-- other, an opening is shown only while its load is on screen, and once at most for a load; and once
-- `stop` has run, every lookup that still runs is cancelled.
pub shown-IsOnScreen :
    (actions : List OpeningAction) (g : ℕ)
    → let s = opening_run no_lookup actions in
      All IsOnScreen s.shown
      × (total (of_shown g) s.shown ≤ 1)
      × All (λ (lookup : OpeningLookup). In lookup.number (stop_lookup s).cancelled) s.lookups
shown-IsOnScreen actions g =
    let single = run-IsSingle actions no_lookup none-IsSingle in
    (
      single.on_screen,
      omega (arith, single.once g),
      stopped-All (opening_run no_lookup actions) single,
    )
