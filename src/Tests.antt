-- ===== src/Tests.antt =====
-- Runs on concrete data, and each result applied to such a run.
mod Jobs
mod Sends
mod Events
mod Writes
mod States
mod Recoveries
mod Answers
mod Rooms
mod Batches
mod Targets
mod Arrivals
mod Runners
mod Configurations
mod Bots
mod Messages
