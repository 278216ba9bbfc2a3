-- ===== src/Desktop.antt =====
-- apps/desktop: what the player does beside playing, as state machines.
pub mod Autoplay
pub mod Follow
pub mod Queue
pub mod StartWatch
pub mod PlayerOpening
