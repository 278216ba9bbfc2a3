-- ===== src/Library/Following.antt =====
-- core/following.go: the followed-anime list with its indicators.
pub mod Indicators
pub mod Noted
pub mod Recent
use anime_portable.Prelude.{
  ◌+◌, ◌-◌, ltb, leb, ◌==◌, str_eq, is_empty, ℤ, pos, negsuc, leb_ℤ, max_int64, Bool, true, false,
  not, ◌&&◌, ◌||◌, Option, none, some, List, [], ◌∷◌, if◌then◌else◌,
}
use anime_portable.Models.{AnimeId, EpisodeId, Time, EpisodeMapping, FollowingEntry, HistoryEntry}
use anime_portable.Library.Numbers.{
  Float, float_eq, FloatParser, NumberMap, number_of, has_id, episode_number_value,
  highest_numbered, watched_up_to,
}

-- The watched episodes of an anime: none is the nil map of an anime without history.
abbrev pub Watched : Type 0
Watched = Option (List EpisodeId)

abbrev pub watched_ids : Watched → List EpisodeId
watched_ids none = []
watched_ids (some ids) = ids

abbrev has_any : List EpisodeId → Bool
has_any [] = false
has_any (x ∷ xs) = true

-- RecentUpdateWindow, in nanoseconds.
abbrev pub recent_update_window : ℤ
recent_update_window = pos 604800000000000

-- `t.Sub(u)`, which saturates at the ends of int64.
abbrev pub time_sub : Time → Time → ℤ
time_sub t u =
    if leb u t
    then pos (if leb (t - u) max_int64 then t - u else max_int64)
    else if leb (u - t) (max_int64 + 1)
    then negsuc (u - t - 1)
    else negsuc max_int64

-- The earlier of a known time and a time that may be unknown (zero).
abbrev earliest : Time → Time → Time
earliest old seen = if (old == 0) || ltb seen old then seen else old

-- The variables of the loop of markRecentUpdate.
pub record Seen : Type 0 where
  pub first_list : Time
  pub unknown_times : Bool
  pub latest_known_before : Bool
  pub latest_seen_at : Time

pub note_list : EpisodeMapping → Seen → Seen
note_list mapping seen =
    if mapping.first_seen_at == 0
    then record seen { unknown_times = true }
    else record seen { first_list = earliest seen.first_list mapping.first_seen_at }

module _ (parse_float : FloatParser) where
  latest_available_of :
      AnimeId
      → NumberMap
      → Watched
      → EpisodeId
      → EpisodeId × Bool
      → EpisodeId × Bool
      → FollowingEntry
  latest_available_of id numbers watched recent (latest, has_available) (highest, watched_ok) =
      let has_watched = has_any (watched_ids watched) in
      let watched_numbered = if watched_ok then highest else recent in
      let latest_number = if has_available then number_of numbers latest else [] in
      record {
        anime_id = id;
        latest_available = latest;
        latest_available_number = latest_number;
        latest_watched = if has_watched then watched_numbered else [];
        latest_watched_number = if has_watched then number_of numbers watched_numbered else [];
        has_available = has_available;
        has_watched = has_watched;
        new_episode =
            has_available
            && has_watched
            && not (watched_up_to parse_float numbers (watched_ids watched) latest_number);
        latest_seen_at = 0;
        recently_updated = false;
      }

  -- followingEntry
  unfoldable pub following_entry : AnimeId → NumberMap → Watched → EpisodeId → FollowingEntry
  unfolding latest_available_of
  following_entry id numbers watched recent =
      latest_available_of id numbers watched recent (highest_numbered parse_float numbers none)
        (highest_numbered parse_float numbers watched)

  pub note_latest : NumberMap → Float → EpisodeMapping → Seen → Seen
  note_latest numbers latest_value mapping seen =
      let (value, ok) = episode_number_value parse_float (number_of numbers mapping.episode_id) in
      if not ok || not (float_eq value latest_value)
      then seen
      else if mapping.first_seen_at == 0
      then record seen { latest_known_before = true }
      else record seen { latest_seen_at = earliest seen.latest_seen_at mapping.first_seen_at }

  pub note_mappings : NumberMap → Float → List EpisodeMapping → Seen → Seen
  note_mappings numbers latest_value [] seen = seen
  note_mappings numbers latest_value (mapping ∷ mappings) seen =
      note_mappings numbers latest_value mappings
        (note_latest numbers latest_value mapping (note_list mapping seen))

  -- The end of markRecentUpdate, after its loop.
  mark_seen : FollowingEntry → Seen → NumberMap → List EpisodeId → Time → Time → FollowingEntry
  mark_seen entry seen numbers watched followed_at now =
      let seen_at = if seen.latest_known_before then 0 else seen.latest_seen_at in
      let first_list = if seen.unknown_times then 0 else seen.first_list in
      record entry {
        latest_seen_at = seen_at;
        recently_updated =
            not (seen_at == 0)
            && ltb followed_at seen_at
            && ltb first_list seen_at
            && leb_ℤ (time_sub now seen_at) recent_update_window
            && not (watched_up_to parse_float numbers watched entry.latest_available_number);
      }

  -- markRecentUpdate
  unfoldable pub mark_recent_update :
      FollowingEntry
      → List EpisodeMapping
      → NumberMap
      → List EpisodeId
      → Time
      → Time
      → FollowingEntry
  unfolding mark_seen note_mappings note_list note_latest
  mark_recent_update entry mappings numbers watched followed_at now =
      let latest_value = (episode_number_value parse_float entry.latest_available_number).0 in
      let start : Seen = record {
        first_list = 0;
        unknown_times = false;
        latest_known_before = false;
        latest_seen_at = entry.latest_seen_at;
      } in
      if not entry.has_available
      then entry
      else mark_seen entry (note_mappings numbers latest_value mappings start) numbers watched
          followed_at now

-- What indexPlaybackHistory holds of one anime.
pub record AnimeHistory : Type 0 where
  pub anime_id : AnimeId
  pub watched : List EpisodeId
  pub recent : EpisodeId
  pub recent_at : Time

add_id : List EpisodeId → EpisodeId → List EpisodeId
add_id ids id = if has_id ids id then ids else id ∷ ids

note_played : HistoryEntry → AnimeHistory → AnimeHistory
unfolding add_id
note_played entry h =
    let watched = add_id h.watched entry.progress.episode_id in
    if not (ltb entry.last_played_at h.recent_at)
    then record h {
      watched = watched;
      recent = entry.progress.episode_id;
      recent_at = entry.last_played_at;
    }
    else record h { watched = watched }

note_entry : List AnimeHistory → HistoryEntry → List AnimeHistory
unfolding note_played
note_entry [] entry =
    record {
      anime_id = entry.progress.anime_id;
      watched = entry.progress.episode_id ∷ [];
      recent = entry.progress.episode_id;
      recent_at = entry.last_played_at;
    }
    ∷ []
note_entry (h ∷ rest) entry =
    if str_eq h.anime_id entry.progress.anime_id
    then note_played entry h ∷ rest
    else h ∷ note_entry rest entry

note_history : List AnimeHistory → List HistoryEntry → List AnimeHistory
note_history index [] = index
note_history index (entry ∷ entries) =
    note_history
      (if is_empty entry.progress.anime_id || is_empty entry.progress.episode_id
        then index
        else note_entry index entry)
      entries

-- indexPlaybackHistory; its three maps have the same keys and are kept as one list.
unfoldable pub index_playback_history : List HistoryEntry → List AnimeHistory
unfolding note_history note_entry
index_playback_history history = note_history [] history

-- `watched[id]` and `recent[id]`
unfoldable pub watched_of : List AnimeHistory → AnimeId → Watched
watched_of [] id = none
watched_of (h ∷ rest) id = if str_eq h.anime_id id then some h.watched else watched_of rest id

unfoldable pub recent_of : List AnimeHistory → AnimeId → EpisodeId
recent_of [] id = []
recent_of (h ∷ rest) id = if str_eq h.anime_id id then h.recent else recent_of rest id
