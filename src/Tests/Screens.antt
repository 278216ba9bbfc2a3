-- ===== src/Tests/Screens.antt =====
-- The library screens of core over a store with one followed anime.
use anime_portable.Prelude.{bytes, pos, ◌≡◌, refl, true, false, List, [], ◌∷◌}
use anime_portable.Models.{FollowedAnime, HistoryEntry, FollowingEntry}
use anime_portable.Effects.{ok}
use anime_portable.Host.{Host}
use anime_portable.Library.Numbers.{number_of, episode_numbers}
use anime_portable.Library.Screens.{WatchedEpisode, numbers_for, list_history}
use anime_portable.Tests.App.{host, source, counted}

abbrev played : HistoryEntry
played = record {
  progress = record {
    anime_id = bytes "frieren";
    episode_id = bytes "1";
    position = pos 40;
    duration = pos 100;
    completed = false;
    updated_at = 5;
  };
  last_played_at = 5;
}

abbrev followed : List FollowedAnime
followed = record { anime_id = bytes "frieren"; followed_at = 2 } ∷ []

abbrev screens : Host
screens = record (host (ok source)) {
  history = counted (played ∷ []);
  following = counted followed;
}

abbrev listed : List WatchedEpisode
listed = record { entry = played; episode_number = [] } ∷ []

listed-eq : list_history screens 0 ≡ (ok listed, 2)
unfolding list_history counted numbers_for number_of episode_numbers
listed-eq = refl

abbrev entry : FollowingEntry
entry = record {
  anime_id = bytes "frieren";
  latest_available = [];
  latest_available_number = [];
  latest_watched = bytes "1";
  latest_watched_number = [];
  has_available = false;
  has_watched = true;
  new_episode = false;
  latest_seen_at = 0;
  recently_updated = false;
}
