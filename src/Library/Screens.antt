-- ===== src/Library/Screens.antt =====
-- core/following.go and core/history.go: ListFollowing and ListHistory, over the store.
pub mod Listed
use anime_portable.Prelude.{
  ℕ, zero, suc, ◌+◌, ◌-◌, ◌*◌, ◌/◌, ◌%◌, ◌^◌, ◌≤◌, ◌<◌, min, max, ltb, leb, ◌==◌, if◌then◌else◌,
  ltb→lt, lt→ltb, leb→le, ==_iff, ==-refl, Bool-cases, Option-cases, is_some, length, get_elem?,
  take, drop, All, In, length-append, All-append, All-map, Str, bytes, str_eq, is_empty, str_lt,
  str_eq_iff, str_eq_refl, str_lt_irrefl, str_lt_trans, str_lt_asymm, str_lt_total, not_before,
  trim_space, ℤ, pos, negsuc, pos_part, neg_part, sub_ℕ, ◌+ℤ◌, ◌-ℤ◌, ◌≤ℤ◌, ltb_ℤ, leb_ℤ, eq_ℤ,
  +ℤ_parts, -ℤ_parts, eq_of_parts, eq_ℤ_iff, int_laws, u64, Duration, milliseconds, seconds,
  minutes, max_int64, String, ◌≡◌, refl, sym, ap, ◌∙◌, ◌≢◌, ◌↔◌, ◌⊎◌, inl, inr, Bool, true, false,
  not, ◌&&◌, ◌||◌, Option, none, some, List, [], ◌∷◌, ◌++◌, map, arith,
}
use anime_portable.Models.{
  Err, not_found, invalid_playback, AnimeId, EpisodeId, Time, Anime, EpisodeMapping, FollowedAnime,
  HistoryEntry, FollowingEntry,
}
use anime_portable.Effects.{Eff, Result, ok, failed, pure, raise, ◌>>=◌, ◌>>◌, guard, check, found}
use anime_portable.Host.{Host}
use anime_portable.App.{ready}
use anime_portable.Library.Numbers.{FloatParser, NumberMap, number_of, episode_numbers}
use anime_portable.Library.Following.{
  AnimeHistory, watched_of, watched_ids, recent_of, index_playback_history, following_entry,
  mark_recent_update,
}

pub record WatchedEpisode : Type 0 where
  pub entry : HistoryEntry
  pub episode_number : Str

-- The numbers loaded so far, by anime.
abbrev pub Loaded : Type 0
Loaded = List (AnimeId × NumberMap)

unfoldable pub numbers_for : Loaded → AnimeId → Option NumberMap
numbers_for [] id = none
numbers_for ((key, numbers) ∷ rest) id =
    let later = numbers_for rest id in if str_eq key id then some numbers else later

module _ (host : Host) where
  open host use {W}

  -- The numbers of an anime, read from the store the first time.
  load_numbers : Option NumberMap → Loaded → AnimeId → Eff W (NumberMap × Loaded)
  load_numbers (some numbers) loaded id = pure (numbers, loaded)
  load_numbers none loaded id = do
    check host.ctx_err
    mappings ← host.episode_mappings id
    pure (episode_numbers mappings, (id, episode_numbers mappings) ∷ loaded)

  -- The loop of ListHistory.
  list_entries : Loaded → List HistoryEntry → Eff W (List WatchedEpisode)
  unfolding load_numbers
  list_entries loaded [] = pure []
  list_entries loaded (entry ∷ history) = do
    (numbers, loaded') ←
        load_numbers (numbers_for loaded entry.progress.anime_id) loaded entry.progress.anime_id
    entries ← list_entries loaded' history
    pure (
        record { entry = entry; episode_number = number_of numbers entry.progress.episode_id }
        ∷ entries)

  -- ListHistory
  unfoldable pub list_history : Eff W (List WatchedEpisode)
  unfolding list_entries
  list_history = do
    guard (ready host) invalid_playback
    check host.ctx_err
    history ← host.history
    list_entries [] history

  module _ (parse_float : FloatParser) where
    -- One turn of the loop of ListFollowing for an anime that the store has.
    list_known : List AnimeHistory → Time → FollowedAnime → Eff W FollowingEntry
    list_known index now item = do
      mappings ← host.episode_mappings item.anime_id
      pure (
          mark_recent_update parse_float
            (following_entry parse_float item.anime_id (episode_numbers mappings)
              (watched_of index item.anime_id) (recent_of index item.anime_id))
            mappings (episode_numbers mappings) (watched_ids (watched_of index item.anime_id))
            item.followed_at now)

    -- The loop, once the store has been asked for the anime: an unknown one is passed over.
    list_by : Option Anime → List AnimeHistory → Time → FollowedAnime → Eff W (List FollowingEntry)
    unfolding list_known
    list_by none index now item = pure []
    list_by (some anime) index now item = do entry ← list_known index now item; pure (entry ∷ [])

    list_followed : List AnimeHistory → Time → List FollowedAnime → Eff W (List FollowingEntry)
    unfolding list_by
    list_followed index now [] = pure []
    list_followed index now (item ∷ followed) = do
      check host.ctx_err
      anime ← found (host.anime item.anime_id)
      listed ← list_by anime index now item
      entries ← list_followed index now followed
      pure (listed ++ entries)

    -- ListFollowing
    unfoldable pub list_following : Eff W (List FollowingEntry)
    unfolding list_followed
    list_following = do
      guard (ready host) invalid_playback
      check host.ctx_err
      followed ← host.following
      history ← host.history
      now ← (λ w. let (t, w') = host.now w in (ok t, w'))
      list_followed (index_playback_history history) now followed
