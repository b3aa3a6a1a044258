-- ===== src/Session/Reader.antt =====
-- What the reader of a connection does, over all its procedures.
pub mod Invariant
pub mod Steps
pub mod Rounds
pub mod Authentication
pub mod Registration
pub mod Chatting
pub mod Creating
pub mod Locality
pub mod Log
pub mod Panics
pub mod Blocks
