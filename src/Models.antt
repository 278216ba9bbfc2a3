-- ===== src/Models.antt =====
-- core/models.go, core/metadata.go, core/playback.go, core/errors.go and core/source.go: the domain's data.
-- A string is the list of its bytes. A time.Time is its number of nanoseconds since the zero time,
-- so that the zero time is 0 (`IsZero`).
pub mod Settings
use anime_portable.Prelude.{ℕ, Str, Duration, ℤ, Bool, Option, List}

-- The sentinel errors, and any other error by an identity of its own.
pub data Err : Type 0 where
  not_found invalid_playback playback_tracking metadata_unavailable : Err
  other : ℕ → Err

abbrev pub AnimeId : Type 0
AnimeId = Str

abbrev pub EpisodeId : Type 0
EpisodeId = Str

abbrev pub Time : Type 0
Time = ℕ

pub record SourceRef : Type 0 where
  pub provider : Str
  pub id : Str

pub record EpisodeRef : Type 0 where
  pub anime : SourceRef
  pub id : Str

pub record EpisodeMapping : Type 0 where
  pub anime_id : AnimeId
  pub episode_id : EpisodeId
  pub ref : EpisodeRef
  pub number : Str
  pub first_seen_at : Time

pub record FollowedAnime : Type 0 where
  pub anime_id : AnimeId
  pub followed_at : Time

pub record MetadataRef : Type 0 where
  pub provider : Str
  pub id : Str

pub record CatalogInfo : Type 0 where
  pub year : ℤ
  pub airing_season : Str
  pub episode_count : ℤ

pub record Anime : Type 0 where
  pub id : AnimeId
  pub title : Str
  pub native_title : Str
  pub description : Str
  pub catalog : CatalogInfo

pub record AnimeMetadata : Type 0 where
  pub ref : MetadataRef
  pub title : Str
  pub native_title : Str
  pub description : Str
  pub cover_url : Str
  pub season : Str
  pub year : ℤ
  pub studio : Str
  pub episode_count : ℤ

pub record PlaybackProgress : Type 0 where
  pub anime_id : AnimeId
  pub episode_id : EpisodeId
  pub position : Duration
  pub duration : Duration
  pub completed : Bool
  pub updated_at : Time

pub record PlaybackSnapshot : Type 0 where
  pub position : Duration
  pub duration : Duration
  pub paused : Bool

pub record HistoryEntry : Type 0 where
  pub progress : PlaybackProgress
  pub last_played_at : Time

pub record FollowingEntry : Type 0 where
  pub anime_id : AnimeId
  pub latest_available : EpisodeId
  pub latest_available_number : Str
  pub latest_watched : EpisodeId
  pub latest_watched_number : Str
  pub has_available : Bool
  pub has_watched : Bool
  pub new_episode : Bool
  pub latest_seen_at : Time
  pub recently_updated : Bool

pub data PlaybackEventKind : Type 0 where
  unknown progress paused ended failed stopped : PlaybackEventKind

pub record PlaybackEvent : Type 0 where
  pub anime_id : AnimeId
  pub episode_id : EpisodeId
  pub kind : PlaybackEventKind
  pub position : Duration
  pub duration : Duration
  pub err : Option Err

pub record MetadataQuery : Type 0 where
  pub title : Str
  pub native_title : Str
  pub year : ℤ
  pub episode_count : ℤ

pub record MetadataCandidate : Type 0 where
  pub ref : MetadataRef
  pub title : Str
  pub native_title : Str
  pub aliases : List Str
  pub year : ℤ
  pub episode_count : ℤ

-- `url` and `headers` are private to the package; `headers` is an http.Header.
pub record PlaybackSource : Type 0 where
  pub url : Str
  pub headers : List (Str × List Str)

pub record PlayRequest : Type 0 where
  pub anime_id : AnimeId
  pub episode_id : EpisodeId
  pub source : PlaybackSource
  pub start_at : Duration
  pub paused : Bool
