-- ===== src/Metadata.antt =====
-- core/metadata_normalize.go, core/metadata_match.go, core/metadata_refresh.go and core/schedule.go:
-- which entry of an anime database an anime is.
pub mod Text
pub mod Names
pub mod Score
pub mod Match
pub mod Refresh
pub mod Schedule
