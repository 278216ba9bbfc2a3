-- ===== src/Library.antt =====
-- core/following.go, core/history.go and core/opening.go: what the library says of episodes.
pub mod Numbers
pub mod Following
pub mod Opening
pub mod Screens
