-- ===== src/Library/Opening/Find.antt =====
-- core/opening.go: FindOpening and MyAnimeListID, over the store and the sources that they are given.
use anime_portable.Metadata.Match.{MatchDecision, match_metadata}
use anime_portable.Metadata.Refresh.{metadata_query_for}
use anime_portable.App.{ready}
use anime_portable.Metadata.Text.{Unicode, Patterns}
use anime_portable.Host.{Host}
use anime_portable.Library.Opening.{OpeningCandidate, Opening, no_opening, choose_opening}
use anime_portable.Library.Numbers.{Float, FloatParser, episode_number_value, finite}
use anime_portable.Prelude.{
  ℕ, zero, suc, ◌*◌, ◌/◌, ◌%◌, ◌^◌, leb, ◌==◌, if◌then◌else◌, length, Str, str_eq, is_empty, ℤ, pos,
  pos_part, ltb_ℤ, Duration, Bool, true, false, not, ◌&&◌, Option, none, some, List, [], ◌∷◌,
}
use anime_portable.Metadata.Match.{MatchDecision, accepted}
use anime_portable.Models.{
  AnimeId, EpisodeId, EpisodeMapping, Anime, AnimeMetadata, MetadataRef, MetadataQuery,
  MetadataCandidate, invalid_playback,
}
use anime_portable.Effects.{Eff, pure, ◌>>=◌, ◌>>◌, guard, found}

-- maxOpeningEpisode
abbrev pub max_opening_episode : ℕ
max_opening_episode = 10000

-- How many steps of a float64's smallest size make one.
abbrev pub one_whole : ℕ
one_whole = 2 ^ 1074

-- The test of wholeEpisodeNumber on a finite value: from 1 to the limit, and its own truncation.
unfoldable pub whole_value : Float → ℕ
whole_value (finite (pos k)) =
    if leb one_whole k && leb k (max_opening_episode * one_whole) && (k % one_whole == 0)
    then k / one_whole
    else 0
whole_value _ = 0

module _ (parse_float : FloatParser) where
  -- wholeEpisodeNumber
  unfoldable pub whole_episode_number : Str → ℕ
  whole_episode_number number =
      let (value, known) = episode_number_value parse_float number in
      if known then whole_value value else 0

  -- The loop over the mappings, which ends at the first one of the episode.
  unfoldable pub opening_number : List EpisodeMapping → EpisodeId → ℕ
  opening_number [] episode_id = 0
  opening_number (mapping ∷ mappings) episode_id =
      let later = opening_number mappings episode_id in
      if str_eq mapping.episode_id episode_id then whole_episode_number mapping.number else later

-- OpeningSource
pub record OpeningSource (W : Type 0) : Type 0 where
  pub openings : ℕ → ℕ → Duration → Eff W (List OpeningCandidate)

-- MyAnimeListSource
pub record MyAnimeListSource (W : Type 0) : Type 0 where
  pub search : MetadataQuery → Eff W (List MetadataCandidate)
  pub id_of : MetadataRef → Eff W ℤ

module _ (host : Host) where
  open host use {W}

  -- FindOpening once the episode's number is there; 0 is none.
  unfoldable pub find_numbered : ℕ → ℕ → Duration → OpeningSource W → Eff W (Opening × Bool)
  find_numbered my_anime_list_id zero length source = pure (no_opening, false)
  find_numbered my_anime_list_id (suc number) length source = do
    candidates ← source.openings my_anime_list_id (suc number) length
    pure (choose_opening candidates length)

  module _ (parse_float : FloatParser) where
    -- FindOpening; a source that is nil is refused by the guard.
    unfoldable pub find_opening :
        AnimeId → EpisodeId → ℤ → Duration → OpeningSource W → Eff W (Opening × Bool)
    find_opening anime_id episode_id my_anime_list_id length source = do
      guard (ready host && ltb_ℤ (pos 0) my_anime_list_id && ltb_ℤ (pos 0) length) invalid_playback
      mappings ← host.episode_mappings anime_id
      find_numbered (pos_part my_anime_list_id) (opening_number parse_float mappings episode_id)
          length source

  module _ (unicode : Unicode) (patterns : Patterns) where
    -- Whether there is stored metadata with a Japanese title.
    unfoldable pub has_japanese : Option AnimeMetadata → Bool
    has_japanese none = false
    has_japanese (some stored) = not (is_empty stored.native_title)

    -- The query of MyAnimeListID.
    unfoldable pub list_query : Anime → Option AnimeMetadata → MetadataQuery
    list_query anime none = metadata_query_for unicode patterns anime
    list_query anime (some stored) =
        if is_empty stored.native_title then metadata_query_for unicode patterns anime else record {
          title = [];
          native_title = stored.native_title;
          year = stored.year;
          episode_count = stored.episode_count;
        }

    -- The ID that the source has; none is settled as 0.
    unfoldable pub known_id : Option ℤ → ℤ × Bool
    known_id none = (pos 0, true)
    known_id (some id) = (id, true)

    -- The end of MyAnimeListID.
    unfoldable pub identify :
        Bool → MyAnimeListSource W → MatchDecision → Option MetadataCandidate → Eff W (ℤ × Bool)
    identify japanese source accepted (some candidate) = do
      id ← found (source.id_of candidate.ref)
      pure (known_id id)
    identify japanese source decision candidate = pure (pos 0, japanese)

    -- MyAnimeListID: the ID and whether it is settled.
    unfoldable pub my_anime_list_id : AnimeId → MyAnimeListSource W → Eff W (ℤ × Bool)
    my_anime_list_id anime_id source = do
      guard (ready host) invalid_playback
      anime ← host.anime anime_id
      stored ← found (host.metadata anime_id)
      candidates ← source.search (list_query anime stored)
      identify (has_japanese stored) source
          (match_metadata unicode patterns (list_query anime stored) candidates).decision
          (match_metadata unicode patterns (list_query anime stored) candidates).candidate
