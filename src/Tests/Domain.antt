-- ===== src/Tests/Domain.antt =====
-- Positions and settings of core in which the properties' hypotheses hold.
use anime_portable.Prelude.{pos, []}
use anime_portable.Models.Settings.{
  Settings, IsChosen, resolved, resolved-IsChosen, Appearance, Toggle, Language, ProxyMode,
}

abbrev fresh_settings : Settings
fresh_settings = record {
  appearance = Appearance.unspecified;
  autoplay_next = Toggle.unspecified;
  auto_play = Toggle.disabled;
  resume_playback = Toggle.unspecified;
  language = Language.unspecified;
  playback_speed = pos 0;
  hardware_decoding = Toggle.unspecified;
  proxy_mode = ProxyMode.unspecified;
  proxy_address = [];
}

resolved-IsChosen_example : IsChosen (resolved fresh_settings)
resolved-IsChosen_example = resolved-IsChosen fresh_settings
