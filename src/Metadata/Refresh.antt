-- ===== src/Metadata/Refresh.antt =====
-- core/metadata_refresh.go: RefreshMetadata, over the providers that it is given.
pub mod Saved
pub mod Listed
pub mod Sources
use anime_portable.App.{ready}
use anime_portable.Host.{Host}
use anime_portable.Metadata.Match.{query_fields_of, MatchResult, match_metadata, MatchDecision}
use anime_portable.Metadata.Score.{max_candidates, names_match, series_names}
use anime_portable.Metadata.Text.{Unicode, Patterns}
use anime_portable.Prelude.{
  ℕ, ◌+◌, ltb, leb, ◌==◌, if◌then◌else◌, length, Str, str_eq, is_empty, trim_space, ℤ, pos, eq_ℤ,
  Bool, true, false, not, ◌&&◌, ◌||◌, Option, none, some, List, [], ◌∷◌, ◌++◌, map, runes,
}
use anime_portable.Metadata.Match.{accepted}
use anime_portable.Models.{
  AnimeId, Anime, AnimeMetadata, MetadataRef, MetadataQuery, MetadataCandidate, CatalogInfo,
  metadata_unavailable, invalid_playback,
}
use anime_portable.Effects.{Eff, ok, failed, pure, raise, ◌>>=◌, ◌>>◌, guard, check, Result}

-- A MetadataProvider; `browse` is there if it is a MetadataSeasonBrowser too.
pub record Provider (W : Type 0) : Type 0 where
  pub search : MetadataQuery → Eff W (List MetadataCandidate)
  pub get : MetadataRef → Eff W AnimeMetadata
  pub browse : Option (ℤ → Str → Eff W (List MetadataCandidate))

-- The variables of RefreshMetadata: `candidates`, `sources` with its newest entry first, and `failed`.
pub record Found (W : Type 0) : Type 0 where
  pub candidates : List MetadataCandidate
  pub sources : List (Str × Provider W)
  pub failures : ℕ

module _ {W : Type 0} where
  -- `sources[provider]`
  unfoldable pub source_of : List (Str × Provider W) → Str → Option (Provider W)
  source_of [] name = none
  source_of ((key, provider) ∷ rest) name =
      let older = source_of rest name in if str_eq key name then some provider else older

  -- What one provider's answer to the search adds.
  unfoldable pub add_found : Provider W → List MetadataCandidate → Found W → Found W
  add_found provider candidates found = record found {
    candidates = found.candidates ++ candidates;
    sources =
        map (λ (c : MetadataCandidate). (c.ref.provider, provider)) candidates ++ found.sources;
  }

ref_eq : MetadataRef → MetadataRef → Bool
ref_eq a b = str_eq a.provider b.provider && str_eq a.id b.id

-- `known[ref]`: the map holds the references of the candidates at all times.
unfoldable pub is_known : List MetadataCandidate → MetadataRef → Bool
unfolding ref_eq
is_known [] ref = false
is_known (candidate ∷ candidates) ref = ref_eq candidate.ref ref || is_known candidates ref

module _ (host : Host) where
  open host use {W}

  -- What follows one provider's answer; `next` is the loop over the other providers.
  unfoldable pub searched :
      Provider W
      → (Found W → Eff W (Found W))
      → Found W
      → Result (List MetadataCandidate)
      → Eff W (Found W)
  searched provider next found (ok candidates) = next (add_found provider candidates found)
  searched provider next found (failed e) =
      check host.ctx_err >> next (record found { failures = found.failures + 1 })

  -- The loop over the providers.
  unfoldable pub search_all : MetadataQuery → List (Provider W) → Found W → Eff W (Found W)
  search_all query [] found w = pure found w
  search_all query (provider ∷ providers) found w =
      let (result, w') = provider.search query w in
      searched provider (search_all query providers) found result w'

  -- An error of Get is not passed on.
  unfoldable pub got : Result AnimeMetadata → Eff W AnimeMetadata
  got (ok metadata) = pure metadata
  got (failed e) = check host.ctx_err >> raise metadata_unavailable

  -- `sources[ref.Provider].Get(ctx, ref)`. A candidate's provider always has an entry; a nil one would
  -- end the program.
  unfoldable pub get_from : MetadataRef → Option (Provider W) → Eff W AnimeMetadata
  get_from ref none w = raise metadata_unavailable w
  get_from ref (some provider) w = let (result, w') = provider.get ref w in got result w'

  -- RefreshMetadata once the candidates are there.
  unfoldable pub save_match :
      AnimeId → Found W → MatchDecision → Option MetadataCandidate → Eff W Bool
  save_match anime_id found accepted (some candidate) = do
    metadata ← get_from candidate.ref (source_of found.sources candidate.ref.provider)
    host.save_metadata anime_id metadata
    pure true
  save_match anime_id found decision candidate = pure false

module _ (unicode : Unicode) where
  -- containsHan
  unfoldable pub contains_han : List ℕ → Bool
  contains_han [] = false
  contains_han (r ∷ rs) = unicode.is_han r || contains_han rs

  module _ (patterns : Patterns) where
    -- metadataQueryFor
    unfoldable pub metadata_query_for : Anime → MetadataQuery
    metadata_query_for anime =
        let query : MetadataQuery = record {
          title = anime.title;
          native_title = anime.native_title;
          year = anime.catalog.year;
          episode_count = anime.catalog.episode_count;
        } in
        elim (patterns.find_bracketed anime.title) [
          | none ↦ query
          | some (outer, inner) ↦
              if not (is_empty anime.native_title)
                || contains_han (runes outer)
                || not (contains_han (runes inner))
              then query
              else record query { title = trim_space outer; native_title = trim_space inner }
        ]

    module _ {W : Type 0} where
      -- One candidate of a season.
      unfoldable pub add_one :
          MetadataQuery → List Str → Provider W → MetadataCandidate → Found W → Found W
      add_one query series provider candidate found =
          if is_known found.candidates candidate.ref
            || leb max_candidates (length found.candidates)
            || not (names_match unicode patterns query candidate series)
          then found
          else record found {
            candidates = found.candidates ++ candidate ∷ [];
            sources = (candidate.ref.provider, provider) ∷ found.sources;
          }

      -- The loop over the candidates of one season.
      unfoldable pub add_listed :
          MetadataQuery → List Str → Provider W → List MetadataCandidate → Found W → Found W
      add_listed query series provider [] found = found
      add_listed query series provider (candidate ∷ listed) found =
          add_listed query series provider listed (add_one query series provider candidate found)

      -- What a provider's answer to BrowseSeason adds; an error adds nothing.
      unfoldable pub add_answer :
          MetadataQuery
          → List Str
          → Provider W
          → Found W
          → Result (List MetadataCandidate)
          → Found W
      add_answer query series provider found (failed e) = found
      add_answer query series provider found (ok listed) =
          add_listed query series provider listed found

      -- One provider's turn in addSeasonCandidates, given its BrowseSeason if it has one.
      unfoldable pub browse_with :
          MetadataQuery
          → List Str
          → CatalogInfo
          → Provider W
          → Found W
          → Option (ℤ → Str → Eff W (List MetadataCandidate))
          → W
          → Found W × W
      browse_with query series catalog provider found none w = (found, w)
      browse_with query series catalog provider found (some browse) w =
          let (result, w') = browse catalog.year catalog.airing_season w in
          (add_answer query series provider found result, w')

      abbrev pub browse_season :
          MetadataQuery → List Str → CatalogInfo → Provider W → Found W → W → Found W × W
      browse_season query series catalog provider found w =
          browse_with query series catalog provider found provider.browse w

      -- Its loop over the providers.
      unfoldable pub browse_all :
          MetadataQuery → List Str → CatalogInfo → List (Provider W) → Found W → W → Found W × W
      browse_all query series catalog [] found w = (found, w)
      browse_all query series catalog (provider ∷ providers) found w =
          let (found', w') = browse_season query series catalog provider found w in
          browse_all query series catalog providers found' w'

      -- addSeasonCandidates
      unfoldable pub add_season_candidates :
          MetadataQuery → CatalogInfo → List (Provider W) → Found W → W → Found W × W
      add_season_candidates query catalog providers found w =
          let fields = query_fields_of unicode patterns query in
          let series = series_names unicode patterns fields.title fields.native found.candidates in
          if eq_ℤ catalog.year (pos 0) || is_empty catalog.airing_season
          then (found, w)
          else browse_all query series catalog providers found w

    module _ (host : Host) where
      open host use {W}

      -- The candidates to match: those of the season too where the search's are not enough.
      unfoldable pub with_season :
          MetadataQuery
          → CatalogInfo
          → List (Provider W)
          → Found W
          → MatchDecision
          → Eff W (Found W)
      with_season query catalog providers found accepted w = pure found w
      with_season query catalog providers found decision w =
          let (added, w') = add_season_candidates query catalog providers found w in
          (check host.ctx_err >> pure added) w'

      -- RefreshMetadata once the query is there.
      unfoldable pub refresh_known :
          AnimeId → List (Provider W) → CatalogInfo → MetadataQuery → Eff W Bool
      refresh_known anime_id providers catalog query = do
        found ←
            search_all host query providers (record { candidates = []; sources = []; failures = 0 })
        guard (not (ltb 0 (length providers) && (found.failures == length providers)))
            metadata_unavailable
        found' ←
            with_season query catalog providers found
              (match_metadata unicode patterns query found.candidates).decision
        save_match host anime_id found'
            (match_metadata unicode patterns query found'.candidates).decision
            (match_metadata unicode patterns query found'.candidates).candidate

      -- RefreshMetadata
      unfoldable pub refresh_metadata : AnimeId → List (Provider W) → Eff W Bool
      refresh_metadata anime_id providers = do
        guard (ready host) invalid_playback
        anime ← host.anime anime_id
        refresh_known anime_id providers anime.catalog (metadata_query_for anime)
