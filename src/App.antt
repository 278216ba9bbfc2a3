-- ===== src/App.antt =====
-- core/app.go: following, and the preparation of a playback.
pub mod Resume
pub mod Prepare
use anime_portable.Prelude.{
  Bool, true, false, not, ◌&&◌, ◌||◌, Option, none, some, [], if◌then◌else◌, pos, Duration,
}
use anime_portable.Models.{
  invalid_playback, AnimeId, EpisodeId, EpisodeRef, PlayRequest, PlaybackProgress, PlaybackSource,
}
use anime_portable.Models.Settings.{Toggle, resolved}
use anime_portable.Playback.{is_negative, is_positive, is_completion_reached}
use anime_portable.Effects.{Eff, pure, ◌>>=◌, ◌>>◌, guard, check, found}
use anime_portable.Host.{Host}

abbrev is_enabled : Toggle → Bool
is_enabled Toggle.enabled = true
is_enabled _ = false

-- The stored position to resume at; 0 is the start.
resume_at : Option PlaybackProgress → Duration
resume_at none = pos 0
resume_at (some progress) =
    if progress.completed
      || not (is_positive progress.position)
      || is_completion_reached progress.position progress.duration
    then pos 0
    else progress.position

module _ (host : Host) where
  open host use {W}

  -- App.ready
  abbrev pub ready : Bool
  ready = host.has_context && host.has_store

  resume_stored : AnimeId → EpisodeId → Bool → Eff W Duration
  unfolding resume_at
  resume_stored anime_id episode_id false = pure (pos 0)
  resume_stored anime_id episode_id true = do
    progress ← found (host.progress anime_id episode_id)
    pure (resume_at progress)

  -- playbackResumePosition
  unfoldable pub playback_resume_position : AnimeId → EpisodeId → Duration → Eff W Duration
  unfolding resume_stored
  playback_resume_position anime_id episode_id start_at =
      if is_positive start_at then pure start_at else do
        settings ← host.settings
        resume_stored anime_id episode_id (is_enabled (resolved settings).resume_playback)

  -- preparePlayRequest once the source is resolved.
  save_prepared : AnimeId → EpisodeId → EpisodeRef → Duration → PlaybackSource → Eff W PlayRequest
  save_prepared anime_id episode_id ref resolved_start playback_source = do
    check host.ctx_err
    host.save_source_ref anime_id ref.anime
    check host.ctx_err
    host.save_episode_mapping (record {
      anime_id = anime_id;
      episode_id = episode_id;
      ref = ref;
      number = [];
      first_seen_at = 0;
    })
    check host.ctx_err
    pure (record {
      anime_id = anime_id;
      episode_id = episode_id;
      source = playback_source;
      start_at = resolved_start;
      paused = false;
    })

  -- preparePlayRequest once the anime is known.
  resolve_known : AnimeId → EpisodeId → EpisodeRef → Duration → Eff W PlayRequest
  unfolding save_prepared
  resolve_known anime_id episode_id ref start_at = do
    resolved_start ← playback_resume_position anime_id episode_id start_at
    playback_source ← host.resolve ref
    save_prepared anime_id episode_id ref resolved_start playback_source

  -- App.preparePlayRequest
  unfoldable pub prepare_play_request :
      AnimeId → EpisodeId → EpisodeRef → Duration → Eff W PlayRequest
  unfolding resolve_known
  prepare_play_request anime_id episode_id ref start_at = do
    guard (ready && host.has_source && host.has_player && not (is_negative start_at))
        invalid_playback
    check host.ctx_err
    host.anime anime_id
    resolve_known anime_id episode_id ref start_at

  -- App.setFollowing; Follow and Unfollow give it true and false.
  unfoldable pub set_following : AnimeId → Bool → Eff W Unit
  set_following anime_id following = do
    guard ready invalid_playback
    check host.ctx_err
    host.anime anime_id
    check host.ctx_err
    host.set_following anime_id following
