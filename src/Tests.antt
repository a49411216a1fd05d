-- ===== src/Tests.antt =====
-- Runs of the model on concrete inputs, and the theorems at inputs that meet their hypotheses.
pub mod Fixtures
mod Scripts
mod Lifecycle
mod Bidding
mod Polls
mod Routes
mod Watching
mod Runs
mod Lots
mod Races
mod Watchers
mod Registration
mod Answers
mod Searches
mod Starting
mod Restarts
mod Overlaps
mod Migrations
