-- ===== src/Desktop/Autoplay/Once.antt =====
-- The interleavings of playerAutoplay in apps/desktop/player_autoplay.go.
use anime_portable.Prelude.{
  ℕ, zero, suc, ◌+◌, ◌≤◌, ◌<◌, ◌==◌, if◌then◌else◌, length, Str, bytes, str_eq, str_eq_refl, ◌≡◌,
  true, false, not, Option, none, some, List, [], ◌∷◌, arith,
}
use anime_portable.Effects.{Result}
use anime_portable.Views.Data.{Episode, BackendSettings}
use anime_portable.Desktop.Autoplay.{
  Work, Decision, finishes, advances, Switch, Autoplay, still, episode_index, autoplay_decision,
  ended, settings_read, switch_failed, ok,
}

-- The work at an index, and the others.
unfoldable pub take_work : ℕ → List Work → Option (Work × List Work)
take_work i [] = none
take_work zero (work ∷ works) = some (work, works)
take_work (suc i) (work ∷ works) =
    let rest = take_work i works in
    elim rest [ none ↦ none | some (found, others) ↦ some (found, work ∷ others) ]

unfoldable pub fail_at : ℕ → List Switch → ℕ → List Switch × ℕ
fail_at i [] reports = ([], reports)
fail_at zero (switch ∷ switches) reports =
    let (switch', reports') = switch_failed switch reports in (switch' ∷ switches, reports')
fail_at (suc i) (switch ∷ switches) reports =
    let (switches', reports') = fail_at i switches reports in (switch ∷ switches', reports')

-- What happens on the UI thread. The user's actions and the loads of the player give a new view, with
-- whatever plays and is listed then.
pub data AutoplayAction : Type 0 where
  views : Option ℕ → Str → List Episode → AutoplayAction
  ends : ℕ → AutoplayAction
  reads : ℕ → Result BackendSettings → AutoplayAction
  fails : ℕ → AutoplayAction

read_by : Option (Work × List Work) → Autoplay → Result BackendSettings → Autoplay
read_by none s answer = s
read_by (some (work, others)) s answer = settings_read (record s { works = others }) work answer

unfoldable pub autoplay_step : Autoplay → AutoplayAction → Autoplay
unfolding read_by
autoplay_step s (views loaded playing episodes) = record s {
  view = s.view + 1;
  loaded = loaded;
  playing = playing;
  episodes = episodes;
}
autoplay_step s (ends generation) = ended s generation
autoplay_step s (reads i answer) = read_by (take_work i s.works) s answer
autoplay_step s (fails i) =
    let (switches, reports) = fail_at i s.switches s.reports in
    record s { switches = switches; reports = reports }

unfoldable pub autoplay_run : Autoplay → List AutoplayAction → Autoplay
autoplay_run s [] = s
autoplay_run s (action ∷ actions) = autoplay_run (autoplay_step s action) actions

-- The player before its first view.
abbrev pub new_autoplay : Autoplay
new_autoplay = record {
  view = 0;
  loaded = none;
  playing = [];
  episodes = [];
  handled = 0;
  works = [];
  decisions = [];
  switches = [];
  reports = 0;
}

-- How often a view is waited for, and decided.
unfoldable pub waits : ℕ → List Work → ℕ
waits v [] = 0
waits v (work ∷ works) = (if work.view == v then 1 else 0) + waits v works

abbrev pub view_of : Decision → ℕ
view_of (finishes view) = view
view_of (advances view index paused) = view

unfoldable pub decided : ℕ → List Decision → ℕ
decided v [] = 0
decided v (decision ∷ decisions) = (if view_of decision == v then 1 else 0) + decided v decisions

unfoldable pub reported : List Switch → ℕ
reported [] = 0
reported (switch ∷ switches) = (if switch.reported then 1 else 0) + reported switches

-- At one view `v`: it is waited for or decided at most once, and only after it was handled.
record IsOnce (v : ℕ) (s : Autoplay) : Type 0 where
  handled_le : s.handled ≤ s.view
  at_most : waits v s.works + decided v s.decisions ≤ 1
  unhandled : s.handled < v → waits v s.works + decided v s.decisions ≡ 0
  reports : s.reports ≡ reported s.switches

-- When an episode that is not the last listed ends, and the settings that are read next have the next
-- episode play and nothing else happened meanwhile, the player goes to the episode after it, waiting
-- paused unless the settings have it play.
pub next_follows :
    (s : Autoplay) (generation i : ℕ) (settings : BackendSettings)
    → (s.view == s.handled) ≡ false
    → still s generation ≡ true
    → episode_index s.episodes s.playing ≡ some i
    → i + 1 < length s.episodes
    → str_eq settings.autoplay_next (bytes "enabled") ≡ true
    → (autoplay_run s (ends generation ∷ reads 0 (ok settings) ∷ [])).decisions
      ≡ advances s.view (i + 1) (not (str_eq settings.auto_play (bytes "enabled"))) ∷ s.decisions
unfolding autoplay_run autoplay_step ended take_work settings_read autoplay_decision
next_follows s generation i settings new_view shown listed more next =
    ground (arith, str_eq_refl s.playing)
