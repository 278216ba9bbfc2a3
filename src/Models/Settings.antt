-- ===== src/Models/Settings.antt =====
-- core/models.go: the settings, their defaults and the playback speeds.
use anime_portable.Prelude.{
  ℤ, pos, eq_ℤ, Str, Bool, false, ◌||◌, List, [], ◌∷◌, ◌≡◌, ◌≢◌, arith, if◌then◌else◌,
}

pub data Appearance : Type 0 where
  unspecified system light dark : Appearance

pub data Toggle : Type 0 where
  unspecified disabled enabled : Toggle

pub data Language : Type 0 where
  unspecified traditional_chinese english japanese : Language

pub data ProxyMode : Type 0 where
  unspecified no_proxy system manual : ProxyMode

-- In percent; 0 is unspecified.
abbrev pub PlaybackSpeed : Type 0
PlaybackSpeed = ℤ

abbrev pub speed_unspecified : PlaybackSpeed
speed_unspecified = pos 0

abbrev pub speed_default : PlaybackSpeed
speed_default = pos 100

abbrev pub playback_speed_steps : List PlaybackSpeed
playback_speed_steps = pos 75 ∷ pos 100 ∷ pos 125 ∷ pos 150 ∷ pos 200 ∷ []

-- slices.Contains at numbers.
contains : List ℤ → ℤ → Bool
contains [] x = false
contains (y ∷ ys) x = eq_ℤ y x || contains ys x

-- PlaybackSpeed.Valid
unfoldable pub is_valid_speed : PlaybackSpeed → Bool
unfolding contains
is_valid_speed speed = eq_ℤ speed speed_unspecified || contains playback_speed_steps speed

pub record Settings : Type 0 where
  pub appearance : Appearance
  pub autoplay_next : Toggle
  pub auto_play : Toggle
  pub resume_playback : Toggle
  pub language : Language
  pub playback_speed : PlaybackSpeed
  pub hardware_decoding : Toggle
  pub proxy_mode : ProxyMode
  pub proxy_address : Str

abbrev appearance_or_default : Appearance → Appearance
appearance_or_default Appearance.unspecified = Appearance.system
appearance_or_default Appearance.light = Appearance.light
appearance_or_default chosen = chosen

abbrev language_or_default : Language → Language
language_or_default Language.unspecified = Language.traditional_chinese
language_or_default chosen = chosen

abbrev pub toggle_or_default : Toggle → Toggle → Toggle
toggle_or_default Toggle.unspecified fallback = fallback
toggle_or_default value fallback = value

abbrev proxy_mode_or_default : ProxyMode → ProxyMode
proxy_mode_or_default ProxyMode.unspecified = ProxyMode.no_proxy
proxy_mode_or_default chosen = chosen

unfoldable pub resolved : Settings → Settings
resolved settings = record settings {
  appearance = appearance_or_default settings.appearance;
  language = language_or_default settings.language;
  autoplay_next = toggle_or_default settings.autoplay_next Toggle.enabled;
  auto_play = toggle_or_default settings.auto_play Toggle.enabled;
  resume_playback = toggle_or_default settings.resume_playback Toggle.enabled;
  playback_speed =
      if eq_ℤ settings.playback_speed speed_unspecified
      then speed_default
      else settings.playback_speed;
  hardware_decoding = toggle_or_default settings.hardware_decoding Toggle.enabled;
  proxy_mode = proxy_mode_or_default settings.proxy_mode;
}

-- No field of the settings is left unchosen.
pub record IsChosen (settings : Settings) : Type 0 where
  pub appearance : settings.appearance ≢ Appearance.unspecified
  pub autoplay_next : settings.autoplay_next ≢ Toggle.unspecified
  pub auto_play : settings.auto_play ≢ Toggle.unspecified
  pub resume_playback : settings.resume_playback ≢ Toggle.unspecified
  pub language : settings.language ≢ Language.unspecified
  pub playback_speed : settings.playback_speed ≢ speed_unspecified
  pub hardware_decoding : settings.hardware_decoding ≢ Toggle.unspecified
  pub proxy_mode : settings.proxy_mode ≢ ProxyMode.unspecified

-- The settings that are read, whatever is stored, have every field chosen.
pub resolved-IsChosen : (settings : Settings) → IsChosen (resolved settings)
unfolding resolved
resolved-IsChosen settings = ground arith

pub resolved-eq_of_IsChosen :
    (settings : Settings) → IsChosen settings → resolved settings ≡ settings
unfolding resolved
resolved-eq_of_IsChosen settings chosen = ground arith
