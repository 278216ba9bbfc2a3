-- ===== src/Metadata/Refresh/Saved.antt =====
-- What RefreshMetadata of core/metadata_refresh.go has done when it returns.
use anime_portable.Metadata.Match.{accepted, match_metadata}
use anime_portable.Metadata.Refresh.{Provider, Found}
use anime_portable.Host.{Host}
use anime_portable.Metadata.Text.{Unicode, Patterns}
use anime_portable.Prelude.{In, ◌≡◌, some, List, []}
use anime_portable.Models.{AnimeId, AnimeMetadata, MetadataCandidate, MetadataQuery}
use anime_portable.Effects.{ok}

module _ (unicode : Unicode) (patterns : Patterns) (host : Host) where
  open host use {W}

  -- The metadata that is saved: that of an accepted candidate, from one of the providers.
  pub record IsRefreshed (anime_id : AnimeId) (providers : List (Provider W))
      (query : MetadataQuery) (w' : W) : Type 0 where
    pub candidates : List MetadataCandidate
    pub candidate : MetadataCandidate
    pub provider : Provider W
    pub metadata : AnimeMetadata
    pub before : W
    pub after : W
    pub accepts :
        match_metadata unicode patterns query candidates
        ≡ record { decision = accepted; candidate = some candidate }
    pub of_provider : In provider providers
    pub fetched : provider.get candidate.ref before ≡ (ok metadata, after)
    pub saved : host.save_metadata anime_id metadata after ≡ (ok tt, w')

  abbrev nothing_found : Found W
  nothing_found = record { candidates = []; sources = []; failures = 0 }
