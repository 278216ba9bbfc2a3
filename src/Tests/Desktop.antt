-- ===== src/Tests/Desktop.antt =====
-- Openings, refreshes and the autoplay at concrete inputs.
use anime_portable.Prelude.{
  ℕ, ◌+◌, bytes, str_eq, pos, ◌+ℤ◌, ◌-ℤ◌, seconds, minutes, String, ◌≡◌, refl, true, false, not,
  some, List, [], ◌∷◌, arith,
}
use anime_portable.Effects.{ok}
use anime_portable.Views.Data.{Episode, BackendSettings}
use anime_portable.Library.Opening.{
  OpeningCandidate, gap, is_valid_opening, consider_opening, consider_openings, choose_opening,
}
use anime_portable.Refresh.{
  Refresher, new_refresher, last_attempt, attempt, RefreshAction, submits, advances,
}
use anime_portable.Desktop.Autoplay.{Autoplay, Decision, episode_index}
use anime_portable.Desktop.Autoplay.Once.{ends, reads, autoplay_run, new_autoplay, next_follows}

-- An opening of 90 seconds, timed on a cut of a length in seconds.
abbrev submission : ℕ → ℕ → OpeningCandidate
submission start cut = record {
  opening = record { start = seconds start; end = seconds (start + 90) };
  episode_length = seconds cut;
}

abbrev submissions : List OpeningCandidate
submissions = submission 60 1434 ∷ submission 61 1441 ∷ submission 62 1500 ∷ []

chosen-eq : choose_opening submissions (seconds 1440) ≡ ((submission 61 1441).opening, true)
unfolding choose_opening consider_openings consider_opening is_valid_opening gap ◌-ℤ◌ ◌+ℤ◌
chosen-eq = refl

unchosen-eq : (choose_opening (submission 60 1434 ∷ []) (seconds 1440)).1 ≡ false
unfolding choose_opening consider_openings consider_opening is_valid_opening gap ◌-ℤ◌ ◌+ℤ◌
unchosen-eq = refl

abbrev jobs : List RefreshAction
jobs =
    submits true
    ∷ advances false 0
    ∷ advances false 0
    ∷ submits true
    ∷ advances false 0
    ∷ submits false
    ∷ advances false 0
    ∷ advances false 0
    ∷ []

abbrev refresher : Refresher
refresher = new_refresher 4 (minutes 10)

first_attempt : (attempt refresher (bytes "following") false 5).1 ≡ true
unfolding attempt new_refresher last_attempt
first_attempt = refl

other_kind : str_eq (bytes "following") (bytes "schedule") ≡ false
unfolding str_eq
other_kind = refl

abbrev episode_of : String → Episode
episode_of id = record { id = bytes id; anime_id = bytes "frieren"; number = bytes id }

abbrev player : Autoplay
player = record new_autoplay {
  view = 1;
  loaded = some 7;
  playing = bytes "1";
  episodes = episode_of "1" ∷ episode_of "2" ∷ [];
}

abbrev settings : BackendSettings
settings = record {
  appearance = bytes "dark";
  autoplay_next = bytes "enabled";
  auto_play = bytes "disabled";
  resume_playback = bytes "enabled";
  language = bytes "en";
  playback_speed = pos 100;
  hardware_decoding = bytes "enabled";
  proxy_mode = bytes "none";
  proxy_address = [];
}

listed : episode_index player.episodes player.playing ≡ some 0
unfolding episode_index str_eq
listed = refl

enabled : str_eq settings.autoplay_next (bytes "enabled") ≡ true
unfolding str_eq
enabled = refl

next_follows_example :
    (autoplay_run player (ends 7 ∷ reads 0 (ok settings) ∷ [])).decisions
    ≡ Decision.advances 1 1 (not (str_eq settings.auto_play (bytes "enabled"))) ∷ []
next_follows_example = next_follows player 7 0 settings refl refl listed (omega arith) enabled
