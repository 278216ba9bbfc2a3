-- ===== src/Desktop/Autoplay.antt =====
-- apps/desktop/player_autoplay.go: playerAutoplay, which goes on to the next episode. Its functions
-- run on the UI thread, one at a time; the settings are read off it, and what reads them comes back
-- later. What the player does is written to a log. The view token, a uint64 that every user action
-- counts up, is a number here: it does not come back to an old value.
pub mod Once
use anime_portable.Prelude.{
  ℕ, suc, ◌+◌, leb, ◌==◌, if◌then◌else◌, length, Str, bytes, str_eq, Bool, true, false, not, ◌||◌,
  Option, none, some, List, [], ◌∷◌,
}
use anime_portable.Effects.{Result, ok, failed}
use anime_portable.Views.Data.{Episode, BackendSettings}

-- What is remembered while the settings are read: the variables of the closure.
pub record Work : Type 0 where
  pub view : ℕ
  pub generation : ℕ
  pub playing : Str
  pub next_index : ℕ

-- What the autoplay has the player do for a view: finish, or go to an episode.
pub data Decision : Type 0 where
  finishes : ℕ → Decision
  advances : ℕ → ℕ → Bool → Decision

-- A call of advance: whether its failure has been reported.
pub record Switch : Type 0 where
  pub view : ℕ
  pub reported : Bool

-- playerAutoplay with what it sees of the player: `view` and `playing`, the load that is on screen
-- (`loaded`, none when `still` holds for no generation) and `episodes`.
pub record Autoplay : Type 0 where
  pub view : ℕ
  pub loaded : Option ℕ
  pub playing : Str
  pub episodes : List Episode
  pub handled : ℕ
  pub works : List Work
  pub decisions : List Decision
  pub switches : List Switch
  pub reports : ℕ

abbrev pub still : Autoplay → ℕ → Bool
still s generation = elim s.loaded [ none ↦ false | some current ↦ generation == current ]

-- episodeIndex: the first index, none for -1.
unfoldable pub episode_index : List Episode → Str → Option ℕ
episode_index [] id = none
episode_index (episode ∷ episodes) id =
    let rest = episode_index episodes id in
    if str_eq episode.id id then some 0 else elim rest [ none ↦ none | some i ↦ some (suc i) ]

-- autoplayDecision
unfoldable pub autoplay_decision : Result BackendSettings → Bool × Bool
autoplay_decision (failed e) = (false, false)
autoplay_decision (ok settings) =
    if not (str_eq settings.autoplay_next (bytes "enabled"))
    then (false, false)
    else (true, str_eq settings.auto_play (bytes "enabled"))

abbrev pub decide : Autoplay → Decision → Autoplay
decide s decision = record s { decisions = decision ∷ s.decisions }

-- ended
unfoldable pub ended : Autoplay → ℕ → Autoplay
ended s generation =
    if (s.view == s.handled) || not (still s generation)
    then s
    else elim (episode_index s.episodes s.playing) [
      | none ↦ decide (record s { handled = s.view }) (finishes s.view)
      | some current ↦
          if leb (length s.episodes) (current + 1)
          then decide (record s { handled = s.view }) (finishes s.view)
          else record s {
            handled = s.view;
            works =
                record {
                  view = s.view;
                  generation = generation;
                  playing = s.playing;
                  next_index = current + 1;
                }
                ∷ s.works;
          }
    ]

-- The closure that runs when the settings have been read.
unfoldable pub settings_read : Autoplay → Work → Result BackendSettings → Autoplay
settings_read s work answer =
    let (next, play) = autoplay_decision answer in
    if not (s.view == work.view)
      || not (still s work.generation)
      || not (str_eq s.playing work.playing)
    then s
    else if not next
    then decide s (finishes work.view)
    else record (decide s (advances work.view work.next_index (not play))) {
      switches = record { view = work.view; reported = false } ∷ s.switches;
    }

-- The failure function that advance gets: finish and fail, once.
unfoldable pub switch_failed : Switch → ℕ → Switch × ℕ
switch_failed switch reports =
    if switch.reported then (switch, reports) else (record switch { reported = true }, reports + 1)
