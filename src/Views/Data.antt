-- ===== src/Views/Data.antt =====
-- apps/desktop/backend/dto.go: what the backend hands to the pages.
use anime_portable.Prelude.{Str, ℤ, Bool, Option, []}

pub record Anime : Type 0 where
  pub id : Str
  pub title : Str
  pub native_title : Str
  pub description : Str

pub record Episode : Type 0 where
  pub id : Str
  pub anime_id : Str
  pub number : Str

pub record Metadata : Type 0 where
  pub title : Str
  pub native_title : Str
  pub description : Str
  pub season : Str
  pub year : ℤ
  pub studio : Str
  pub episode_count : ℤ

pub record Detail : Type 0 where
  pub anime : Anime
  pub metadata : Option Metadata
  pub following : Bool

-- `Anime{}`
abbrev pub no_anime : Anime
no_anime = record { id = []; title = []; native_title = []; description = [] }

-- Following: a followed anime.
pub record FollowingItem : Type 0 where
  pub anime_id : Str
  pub latest_available : Str
  pub latest_available_number : Str
  pub latest_watched : Str
  pub latest_watched_number : Str
  pub has_available : Bool
  pub has_watched : Bool
  pub new_episode : Bool
  pub recently_updated : Bool
  pub latest_seen_at : Str

-- Positions and lengths are milliseconds in an int64.
pub record History : Type 0 where
  pub anime_id : Str
  pub episode_id : Str
  pub episode_number : Str
  pub position : ℤ
  pub duration : ℤ
  pub completed : Bool
  pub updated_at : Str
  pub last_played : Str

pub record PlayRequest : Type 0 where
  pub anime_id : Str
  pub episode_id : Str
  pub start_at : ℤ
  pub paused : Bool

-- The settings by the names of their values.
pub record BackendSettings : Type 0 where
  pub appearance : Str
  pub autoplay_next : Str
  pub auto_play : Str
  pub resume_playback : Str
  pub language : Str
  pub playback_speed : ℤ
  pub hardware_decoding : Str
  pub proxy_mode : Str
  pub proxy_address : Str
