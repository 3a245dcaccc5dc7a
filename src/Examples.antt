-- ===== src/Examples.antt =====
-- Runs of the model at concrete inputs.
mod Input
mod Crons
mod Schedules
mod Turns
mod Windows
mod Messages
mod Updates
mod Rooms
mod Chats
mod Knocks
mod Stored
mod Daemons
mod Answers
