-- ===== src/Tests/App.antt =====
-- An App of core/app.go over ports that count their calls.
use anime_portable.Prelude.{ℕ, suc, bytes, pos, ◌≡◌, refl, ◌⊎◌, true, false, none, []}
use anime_portable.Models.{Err, EpisodeRef, PlayRequest, PlaybackProgress, PlaybackSource, Anime}
use anime_portable.Models.Settings.{Settings, Appearance, Toggle, Language, ProxyMode, resolved}
use anime_portable.Playback.{is_completion_reached, to_float64, is_quotient_ge_nine_tenths}
use anime_portable.Effects.{Result, ok, failed, Eff}
use anime_portable.Host.{Host}
use anime_portable.App.{playback_resume_position}
use anime_portable.App.Resume.{IsResumed, resume_sound}

-- A port that answers and counts its call.
unfoldable pub counted : {A : Type 0} → A → Eff ℕ A
counted a n = (ok a, suc n)

abbrev anime : Anime
anime = record {
  id = bytes "frieren";
  title = bytes "Frieren";
  native_title = [];
  description = [];
  catalog = record { year = pos 2023; airing_season = []; episode_count = pos 28 };
}

abbrev settings : Settings
settings = record {
  appearance = Appearance.unspecified;
  autoplay_next = Toggle.unspecified;
  auto_play = Toggle.unspecified;
  resume_playback = Toggle.unspecified;
  language = Language.unspecified;
  playback_speed = pos 0;
  hardware_decoding = Toggle.unspecified;
  proxy_mode = ProxyMode.unspecified;
  proxy_address = [];
}

abbrev stored : PlaybackProgress
stored = record {
  anime_id = bytes "frieren";
  episode_id = bytes "1";
  position = pos 40;
  duration = pos 100;
  completed = false;
  updated_at = 5;
}

abbrev pub source : PlaybackSource
source = record { url = bytes "http://127.0.0.1/1"; headers = [] }

abbrev ref : EpisodeRef
ref = record { anime = record { provider = bytes "anime1"; id = bytes "7" }; id = bytes "1" }

-- `answer` is that of the source.
abbrev pub host : Result PlaybackSource → Host
host answer = record {
  W = ℕ;
  has_context = true;
  has_store = true;
  has_source = true;
  has_player = true;
  ctx_err = λ n. (none, n);
  now = λ n. (9, n);
  anime = λ id. counted anime;
  settings = counted settings;
  progress = λ id episode. counted stored;
  save_source_ref = λ id r. counted tt;
  save_episode_mapping = λ m. counted tt;
  episode_mappings = λ id. counted [];
  set_following = λ id b. counted tt;
  following = counted [];
  history = counted [];
  metadata = λ id n. (failed (Err.not_found), suc n);
  save_metadata = λ id m. counted tt;
  resolve = λ r n. (answer, suc n);
}

abbrev prepared : PlayRequest
prepared = record {
  anime_id = bytes "frieren";
  episode_id = bytes "1";
  source = source;
  start_at = pos 40;
  paused = false;
}

abbrev broken : Host
broken = host (failed (Err.other 3))

resumed-eq :
    playback_resume_position broken (bytes "frieren") (bytes "1") (pos 0) 1 ≡ (ok (pos 40), 3)
unfolding playback_resume_position counted resolved is_completion_reached to_float64
    is_quotient_ge_nine_tenths
resumed-eq = refl

resume_sound_example :
    (pos 40 ≡ pos 0)
    ⊎ ((settings : Settings) × (w' : ℕ) × (progress : PlaybackProgress) × (broken.settings 1
          ≡ (ok settings, w'))
        × (broken.progress (bytes "frieren") (bytes "1") w' ≡ (ok progress, 3))
        × IsResumed broken settings progress (pos 40))
resume_sound_example =
    resume_sound broken (bytes "frieren") (bytes "1") (pos 0) 1 (pos 40) 3 refl resumed-eq
