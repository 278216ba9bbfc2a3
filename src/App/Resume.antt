-- ===== src/App/Resume.antt =====
-- Where playbackResumePosition of core/app.go starts an episode.
use anime_portable.Prelude.{
  Bool-cases, pos, Duration, ◌≡◌, refl, ap, ◌⊎◌, inl, inr, Bool, true, false, not, ◌||◌, some,
  arith,
}
use anime_portable.Models.{AnimeId, EpisodeId, PlaybackProgress}
use anime_portable.Models.Settings.{Settings, Toggle, resolved}
use anime_portable.Playback.{is_positive, is_completion_reached}
use anime_portable.Effects.{ok, found, found-eq-ok, >>=-eq-ok, pure}
use anime_portable.Host.{Host}
use anime_portable.App.{playback_resume_position, resume_stored, resume_at, is_enabled}

module _ (host : Host) where
  open host use {W}

  -- A stored progress that the app resumes at.
  pub record IsResumed (settings : Settings) (progress : PlaybackProgress) (d : Duration)
      : Type 0 where
    pub enabled : (resolved settings).resume_playback ≡ Toggle.enabled
    pub unfinished : progress.completed ≡ false
    pub below : is_completion_reached progress.position progress.duration ≡ false
    pub position : d ≡ progress.position
    pub positive : is_positive d ≡ true

  abbrev Kept : PlaybackProgress → Duration → Type 0
  Kept progress d =
      (progress.completed ≡ false)
      × (is_completion_reached progress.position progress.duration ≡ false)
      × (d ≡ progress.position)
      × (is_positive d ≡ true)

  enabled_eq : (t : Toggle) → is_enabled t ≡ true → t ≡ Toggle.enabled
  enabled_eq t h = ground arith

  resume_at_sound :
      (progress : PlaybackProgress) (d : Duration)
      → resume_at (some progress) ≡ d
      → (d ≡ pos 0) ⊎ Kept progress d
  unfolding resume_at
  resume_at_sound progress d h =
      elim (Bool-cases (
        progress.completed
        || not (is_positive progress.position)
        || is_completion_reached progress.position progress.duration)) [
          | inl restart ↦ inl (ground arith)
          | inr kept ↦ inr (ground arith, ground arith, ground arith, ground arith)
        ]

  stored_sound :
      (anime_id : AnimeId) (episode_id : EpisodeId) (w : W) (d : Duration) (w'' : W)
      (enabled : Bool)
      → resume_stored host anime_id episode_id enabled w ≡ (ok d, w'')
      → (d ≡ pos 0)
        ⊎ ((enabled ≡ true)
            × (progress : PlaybackProgress) × (host.progress anime_id episode_id w
                ≡ (ok progress, w''))
            × Kept progress d)
  unfolding resume_stored
  stored_sound anime_id episode_id w d w'' false h = inl (ground arith)
  stored_sound anime_id episode_id w d w'' true h =
      let (o, w', ho, hr) =
        >>=-eq-ok (found (host.progress anime_id episode_id)) (λ p. pure (resume_at p)) w h in
      elim (found-eq-ok (host.progress anime_id episode_id) w ho) [
        | inl missing ↦ inl (unfold resume_at in ground arith)
        | inr (progress, e, hp) ↦ elim (resume_at_sound progress d (cc (ap resume_at e))) [
          | inl start ↦ inl start
          | inr kept ↦ inr (refl, progress, cc, kept)
        ]
      ]

  -- Without a start given, an episode starts at its beginning or where it was left: at a stored
  -- position that is positive, of an episode neither completed nor past the completion threshold,
  -- and only if the settings have resuming enabled.
  pub resume_sound :
      (anime_id : AnimeId) (episode_id : EpisodeId) (start_at : Duration) (w : W) (d : Duration)
      (w'' : W)
      → is_positive start_at ≡ false
      → playback_resume_position host anime_id episode_id start_at w ≡ (ok d, w'')
      → (d ≡ pos 0)
        ⊎ ((settings : Settings) × (w' : W) × (progress : PlaybackProgress) × (host.settings w
              ≡ (ok settings, w'))
            × (host.progress anime_id episode_id w' ≡ (ok progress, w''))
            × IsResumed settings progress d)
  unfolding playback_resume_position
  resume_sound anime_id episode_id start_at w d w'' given h =
      let (settings, w', hs, hr) =
        >>=-eq-ok host.settings
          (λ settings.
            resume_stored host anime_id episode_id (is_enabled (resolved settings).resume_playback))
          w (rw given at h) in
      elim (stored_sound anime_id episode_id w' d w''
        (is_enabled (resolved settings).resume_playback) hr) [
          | inl start ↦ inl start
          | inr (on, progress, hp, facts) ↦ inr (
            settings,
            w',
            progress,
            hs,
            hp,
            record {
              enabled = enabled_eq (resolved settings).resume_playback on;
              unfinished = ground arith;
              below = ground arith;
              position = ground arith;
              positive = ground arith;
            },
          )
        ]
