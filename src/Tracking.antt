-- ===== src/Tracking.antt =====
-- core/playback_tracking.go: the session that follows a player and saves its progress.
pub mod Queue
pub mod State
pub mod Relay
pub mod Session
