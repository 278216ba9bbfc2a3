-- ===== src/App/Prepare.antt =====
-- What preparePlayRequest of core/app.go has done when it returns.
use anime_portable.Prelude.{Duration, ◌≡◌, Bool, false, not, ◌&&◌, []}
use anime_portable.Models.{Anime, AnimeId, EpisodeId, EpisodeRef, PlayRequest, EpisodeMapping}
use anime_portable.Playback.{is_negative}
use anime_portable.Effects.{ok, check}
use anime_portable.Host.{Host}
use anime_portable.App.{ready, playback_resume_position}

module _ (host : Host) (anime_id : AnimeId) (episode_id : EpisodeId) (ref : EpisodeRef) where
  open host use {W}

  abbrev mapping : EpisodeMapping
  mapping = record {
    anime_id = anime_id;
    episode_id = episode_id;
    ref = ref;
    number = [];
    first_seen_at = 0;
  }

  -- The source ref and the mapping are saved, in this order, and the context has not ended since.
  pub record IsSaved (w w' : W) : Type 0 where
    pub w1 : W
    pub w2 : W
    pub w3 : W
    pub w4 : W
    pub ref_saved : host.save_source_ref anime_id ref.anime w1 ≡ (ok tt, w2)
    pub mapping_saved : host.save_episode_mapping mapping w3 ≡ (ok tt, w4)
    pub going : check host.ctx_err w4 ≡ (ok tt, w')

  -- A request that preparePlayRequest returned: the anime was known, then the start and the source
  -- were found, and only then the ref and the mapping were saved.
  pub record IsPrepared (start_at : Duration) (request : PlayRequest) (w' : W) : Type 0 where
    pub w1 : W
    pub w2 : W
    pub w3 : W
    pub w4 : W
    pub known : Anime
    pub anime_known : host.anime anime_id w1 ≡ (ok known, w2)
    pub start_found :
        playback_resume_position host anime_id episode_id start_at w2 ≡ (ok request.start_at, w3)
    pub source_found : host.resolve ref w3 ≡ (ok request.source, w4)
    pub saved : IsSaved w4 w'
    pub anime : request.anime_id ≡ anime_id
    pub episode : request.episode_id ≡ episode_id
    pub playing : request.paused ≡ false
    pub start_given : is_negative start_at ≡ false

  abbrev usable : Duration → Bool
  usable start_at = ready host && host.has_source && host.has_player && not (is_negative start_at)
