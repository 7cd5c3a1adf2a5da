-- ===== src/Engine.antt =====
-- One server process (engine/) as a whole: what may happen to it while it runs, and what holds of every
-- state that it reaches. Grown and Kept say what a handler keeps; the modules from Actions to Background
-- go through the handlers, from the actions that they are made of to whole connections and loops.
pub mod Grown
pub mod Kept
pub mod Actions
pub mod Shared
pub mod Publishing
pub mod Relaying
pub mod Clients
pub mod Rooms
pub mod Messages
pub mod Frames
pub mod Users
pub mod Notices
pub mod Identity
pub mod Commands
pub mod Events
pub mod Cases
pub mod Background
pub mod Running
pub mod Growth
pub mod Endings
pub mod Publication
use pushd.Text.{Bytes}
