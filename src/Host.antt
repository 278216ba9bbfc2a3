-- ===== src/Host.antt =====
-- What the core uses and does not implement: the ports of core/store.go, core/source.go and
-- core/playback.go as the core calls them, the clock, and the context of a call. `W` is all that they
-- can change or wait for; the context may end during any call.
use anime_portable.Prelude.{Bool, Option, List}
use anime_portable.Models.{
  Err, AnimeId, EpisodeId, Time, SourceRef, EpisodeRef, EpisodeMapping, FollowedAnime, Anime,
  AnimeMetadata, PlaybackProgress, PlaybackSource, HistoryEntry,
}
use anime_portable.Models.Settings.{Settings}
use anime_portable.Effects.{Eff}

-- `has_store`, `has_source` and `has_player` are whether the App's ports are not nil, and
-- `has_context` whether the call's context is not.
pub record Host : Type 1 where
  pub W : Type 0
  pub has_context : Bool
  pub has_store : Bool
  pub has_source : Bool
  pub has_player : Bool
  pub ctx_err : W → Option Err × W
  pub now : W → Time × W
  pub anime : AnimeId → Eff W Anime
  pub settings : Eff W Settings
  pub progress : AnimeId → EpisodeId → Eff W PlaybackProgress
  pub save_source_ref : AnimeId → SourceRef → Eff W (Unit {0})
  pub save_episode_mapping : EpisodeMapping → Eff W (Unit {0})
  pub episode_mappings : AnimeId → Eff W (List EpisodeMapping)
  pub set_following : AnimeId → Bool → Eff W (Unit {0})
  pub following : Eff W (List FollowedAnime)
  pub history : Eff W (List HistoryEntry)
  pub metadata : AnimeId → Eff W AnimeMetadata
  pub save_metadata : AnimeId → AnimeMetadata → Eff W (Unit {0})
  pub resolve : EpisodeRef → Eff W PlaybackSource
