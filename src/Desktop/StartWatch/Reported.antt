-- ===== src/Desktop/StartWatch/Reported.antt =====
-- What playerStartWatch of apps/desktop/player_start_watch.go reports.
use mathlib.Core.Path.{subst}
use anime_portable.Desktop.StartWatch.{
  stop_timer, end_watch, begin_watch, watch_run, StartWatch, watch_step, WatchAction, watch_update,
  watch_playing, stopped, begin_action, playing_action, fire_action, fired, update_action, updated,
  end_action, user_action,
}
use anime_portable.Prelude.{
  ℕ, zero, suc, ◌+◌, ◌≤◌, ◌==◌, if◌then◌else◌, Bool-cases, All, ◌≡◌, refl, sym, ap, ◌∙◌, inl, inr,
  not, ◌||◌, Option, none, some, List, [], ◌∷◌, arith, pick, pick-All,
}

active : ℕ → ℕ
active zero = 0
active (suc n) = 1

abbrev IsView : ℕ → Type 0
IsView view = 1 ≤ view

-- No more starts have been reported than begun, the one that is watched included.
record IsPaced (s : StartWatch) : Type 0 where
  timers : All (λ (t : ℕ × ℕ). IsView t.1) s.timers
  updates : All IsView s.updates
  paced : s.failures + active s.watching ≤ s.started

stop_timer-All :
    (n : ℕ) (timers : List (ℕ × ℕ))
    → All (λ (t : ℕ × ℕ). IsView t.1) timers
    → All (λ (t : ℕ × ℕ). IsView t.1) (stop_timer n timers)
unfolding stop_timer
stop_timer-All n [] h = tt
stop_timer-All n ((m, view) ∷ timers) h = elim (Bool-cases (n == m)) [
  | inl same ↦
      subst
        (λ b.
          All (λ (t : ℕ × ℕ). IsView t.1)
            (if b then stop_timer n timers else (m, view) ∷ stop_timer n timers))
        (sym same) (stop_timer-All n timers h.1)
  | inr other ↦
      subst
        (λ b.
          All (λ (t : ℕ × ℕ). IsView t.1)
            (if b then stop_timer n timers else (m, view) ∷ stop_timer n timers))
        (sym other) (h.0, stop_timer-All n timers h.1)
]

stopped-All :
    (stop : Option ℕ) (timers : List (ℕ × ℕ))
    → All (λ (t : ℕ × ℕ). IsView t.1) timers
    → All (λ (t : ℕ × ℕ). IsView t.1) (stopped stop timers)
stopped-All none timers h = h
stopped-All (some n) timers h = stop_timer-All n timers h

active_most : (n : ℕ) → active n ≤ 1
unfolding active
active_most zero = omega arith
active_most (suc n) = omega arith

active_view : (n : ℕ) → IsView n → active n ≡ 1
unfolding active
active_view zero h = absurd (omega (arith, h))
active_view (suc n) h = refl

end-IsPaced : (s : StartWatch) → IsPaced s → IsPaced (end_watch s)
unfolding end_watch active
end-IsPaced s is = record {
  timers = stopped-All s.stop s.timers is.timers;
  updates = is.updates;
  paced = omega (arith, is.paced);
}

begin-IsPaced : (view : ℕ) (s : StartWatch) → IsView view → IsPaced s → IsPaced (begin_watch view s)
unfolding begin_watch end_watch
begin-IsPaced view s numbered is = record {
  timers = (numbered, stopped-All s.stop s.timers is.timers);
  updates = is.updates;
  paced = omega (arith, is.paced, active_most view);
}

-- A report ends the watch of its view.
report-IsPaced :
    (view : ℕ) (s : StartWatch)
    → IsView view
    → s.watching ≡ view
    → IsPaced s
    → IsPaced (record (end_watch s) { failures = s.failures + 1 })
unfolding end_watch active
report-IsPaced view s numbered same is = record {
  timers = stopped-All s.stop s.timers is.timers;
  updates = is.updates;
  paced = omega (arith, is.paced, active_view view numbered, ap active same);
}

update-IsPaced :
    (view : ℕ) (s : StartWatch) → IsView view → IsPaced s → IsPaced (watch_update view s)
unfolding watch_update
update-IsPaced view s numbered is =
    let reported = record (end_watch s) { failures = s.failures + 1 } in
    elim (Bool-cases (not (s.watching == view) || not (s.view == view))) [
      | inl old ↦ subst (λ b. IsPaced (if b then s else reported)) (sym old) is
      | inr current ↦
          subst (λ b. IsPaced (if b then s else reported)) (sym current)
            (report-IsPaced view s numbered (ground arith) is)
    ]

-- A start is watched by a view that is not 0.
abbrev pub IsNumbered : WatchAction → Type 0
IsNumbered (begin_action view) = IsView view
IsNumbered action = Unit

step-IsPaced :
    (s : StartWatch) (action : WatchAction)
    → IsNumbered action
    → IsPaced s
    → IsPaced (watch_step s action)
unfolding watch_step watch_playing
step-IsPaced s (begin_action view) numbered is = begin-IsPaced view s numbered is
step-IsPaced s (playing_action view) numbered is = elim (Bool-cases (s.watching == view)) [
  | inl same ↦ subst (λ b. IsPaced (if b then end_watch s else s)) (sym same) (end-IsPaced s is)
  | inr other ↦ subst (λ b. IsPaced (if b then end_watch s else s)) (sym other) is
]
step-IsPaced s end_action numbered is = end-IsPaced s is
step-IsPaced s user_action numbered is = record {
  timers = is.timers;
  updates = is.updates;
  paced = is.paced;
}
step-IsPaced s (fire_action i) numbered is =
    from (pick i s.timers)
      (λ t rest e. pick-All (λ (t : ℕ × ℕ). IsView t.1) i s.timers t rest e is.timers)
  where
    from :
        (o : Option ((ℕ × ℕ) × List (ℕ × ℕ)))
        → ((t : ℕ × ℕ) (rest : List (ℕ × ℕ))
            → o ≡ some (t, rest)
            → IsView t.1 × All (λ (t : ℕ × ℕ). IsView t.1) rest)
        → IsPaced (fired o s)
    from none known = is
    from (some ((n, view), rest)) known =
        let (now, others) = known (n, view) rest refl in
        record { timers = others; updates = (now, is.updates); paced = is.paced }
step-IsPaced s (update_action i) numbered is =
    from (pick i s.updates) (λ view rest e. pick-All IsView i s.updates view rest e is.updates)
  where
    from :
        (o : Option (ℕ × List ℕ))
        → ((view : ℕ) (rest : List ℕ) → o ≡ some (view, rest) → IsView view × All IsView rest)
        → IsPaced (updated o s)
    from none known = is
    from (some (view, rest)) known =
        let (now, others) = known view rest refl in
        update-IsPaced view (record s { updates = rest }) now
          (record { timers = is.timers; updates = others; paced = is.paced })

run-IsPaced :
    (actions : List WatchAction) (s : StartWatch)
    → All IsNumbered actions
    → IsPaced s
    → IsPaced (watch_run s actions)
unfolding watch_run
run-IsPaced [] s numbered is = is
run-IsPaced (action ∷ actions) s numbered is =
    run-IsPaced actions (watch_step s action) numbered.1 (step-IsPaced s action numbered.0 is)

abbrev pub IsNoBegin : WatchAction → Type 0
IsNoBegin (begin_action view) = ⊥
IsNoBegin action = Unit

-- Where nothing is watched, a step other than a begin watches and reports nothing.
abbrev IsQuiet : StartWatch → StartWatch → Type 0
IsQuiet s s' = (s'.watching ≡ 0) × (s'.failures ≡ s.failures)

step-IsQuiet :
    (s : StartWatch) (action : WatchAction)
    → IsPaced s
    → s.watching ≡ 0
    → IsNoBegin action
    → IsQuiet s (watch_step s action)
unfolding watch_step watch_playing end_watch watch_update
step-IsQuiet s (begin_action view) is idle no_begin = absurd no_begin
step-IsQuiet s (playing_action view) is idle no_begin = (ground arith, ground arith)
step-IsQuiet s end_action is idle no_begin = (refl, refl)
step-IsQuiet s user_action is idle no_begin = (idle, refl)
step-IsQuiet s (fire_action i) is idle no_begin = from (pick i s.timers)
  where
    from : (o : Option ((ℕ × ℕ) × List (ℕ × ℕ))) → IsQuiet s (fired o s)
    from none = (idle, refl)
    from (some ((n, view), rest)) = (idle, refl)
step-IsQuiet s (update_action i) is idle no_begin =
    from (pick i s.updates) (λ view rest e. (pick-All IsView i s.updates view rest e is.updates).0)
  where
    from :
        (o : Option (ℕ × List ℕ))
        → ((view : ℕ) (rest : List ℕ) → o ≡ some (view, rest) → IsView view)
        → IsQuiet s (updated o s)
    from none known = (idle, refl)
    from (some (view, rest)) known =
        (ground (arith, known view rest refl), ground (arith, known view rest refl))

run-quiet :
    (actions : List WatchAction) (s : StartWatch)
    → All IsNumbered actions
    → All IsNoBegin actions
    → IsPaced s
    → s.watching ≡ 0
    → (watch_run s actions).failures ≡ s.failures
unfolding watch_run
run-quiet [] s numbered no_begin is idle = refl
run-quiet (action ∷ actions) s numbered no_begin is idle =
    let (idle', same) = step-IsQuiet s action is idle no_begin.0 in
    run-quiet actions (watch_step s action) numbered.1 no_begin.1
      (step-IsPaced s action numbered.0 is) idle'
    ∙ same

abbrev pub new_watch : StartWatch
new_watch = record {
  watching = 0;
  stop = none;
  timers = [];
  started = 0;
  updates = [];
  view = 0;
  failures = 0;
}

new-IsPaced : IsPaced new_watch
unfolding active
new-IsPaced = record { timers = tt; updates = tt; paced = omega arith }

-- Whatever timers fire and whenever their updates run, no more starts are reported as failed than were
-- begun; and once nothing is watched, since the first frame came or the watch was ended, nothing is
-- reported before the next begin. A start is begun with a view that is not 0.
pub watch_reports :
    (before after : List WatchAction)
    → All IsNumbered before
    → All IsNumbered after
    → All IsNoBegin after
    → let s = watch_run new_watch before in
      (s.failures ≤ s.started) × (s.watching ≡ 0 → (watch_run s after).failures ≡ s.failures)
watch_reports before after numbered numbered' no_begin =
    let is : IsPaced (watch_run new_watch before) =
      run-IsPaced before new_watch numbered new-IsPaced in
    (
      omega (arith, is.paced),
      λ idle. run-quiet after (watch_run new_watch before) numbered' no_begin is idle,
    )
