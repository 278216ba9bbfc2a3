-- ===== src/Tests.antt =====
-- Concrete runs of the properties of the other modules.
mod Tracking
mod App
mod Library
mod Screens
mod Views
mod Detail
mod Home
mod Rows
mod Domain
mod Metadata
mod Refreshed
mod Checks
mod Player
mod Policy
mod Desktop
