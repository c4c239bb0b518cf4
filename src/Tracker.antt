-- ===== src/Tracker.antt =====
-- What the program sends to the tracker, where the tracker is, and what it answers.
pub mod Run
pub mod Request
pub mod Announce
pub mod Http
pub mod Response
