-- ===== src/Library/Following/Indicators.antt =====
-- What the indicators of core/following.go say: a new episode, and a recent update.
use anime_portable.Prelude.{◌≡◌, true, false, arith, refl}
use anime_portable.Models.{AnimeId, EpisodeId, EpisodeMapping, FollowingEntry, Time}
use anime_portable.Library.Numbers.{
  Float, float_ge, FloatParser, NumberMap, number_of, has_id, episode_number_value,
}
use anime_portable.Library.Numbers.Watched.{watched_up_to-ids}
use anime_portable.Library.Following.{
  mark_recent_update, mark_seen, following_entry, Watched, watched_ids, false, true, List,
}

module _ (parse_float : FloatParser) where
  -- Where a new episode is shown, an episode with a plain number is stored, the user has watched some
  -- episode of the anime, and no watched episode has a number that is at least that of the latest.
  pub new_episode_unwatched :
      (anime : AnimeId) (numbers : NumberMap) (watched : Watched) (recent id : EpisodeId)
      (v : Float)
      → (following_entry parse_float anime numbers watched recent).new_episode ≡ true
      → has_id (watched_ids watched) id ≡ true
      → episode_number_value parse_float (number_of numbers id) ≡ (v, true)
      → let entry = following_entry parse_float anime numbers watched recent in
        (entry.has_available ≡ true)
        × (entry.has_watched ≡ true)
        × (float_ge v (episode_number_value parse_float entry.latest_available_number).0 ≡ false)
  unfolding following_entry
  new_episode_unwatched anime numbers watched recent id v shown has e = (
    ground arith,
    ground arith,
    watched_up_to-ids parse_float numbers (watched_ids watched) _ id v (ground arith) has e,
  )

  pub mark_recent_update-anime_id :
      (entry : FollowingEntry) (mappings : List EpisodeMapping) (numbers : NumberMap)
      (watched : List EpisodeId) (followed_at now : Time)
      → (mark_recent_update parse_float entry mappings numbers watched followed_at now).anime_id
        ≡ entry.anime_id
  unfolding mark_recent_update mark_seen
  mark_recent_update-anime_id entry mappings numbers watched followed_at now = ground arith

  pub following_entry-anime_id :
      (anime : AnimeId) (numbers : NumberMap) (watched : Watched) (recent : EpisodeId)
      → (following_entry parse_float anime numbers watched recent).anime_id ≡ anime
  unfolding following_entry
  following_entry-anime_id anime numbers watched recent = refl
