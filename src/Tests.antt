-- ===== src/Tests.antt =====
-- The tests, and the theorems at concrete inputs.
mod Memory
mod Frames
mod Publishing
mod Connections
mod Engine
mod Rooms
mod Handlers
mod Storing
mod Notifying
mod Peers
mod Polls
mod RoomLaws
mod Agreeing
mod Loading
mod Tools
