-- ===== src/Session.antt =====
-- pkg/session: connections, the reader of a connection as a state machine, and the session.
pub mod State
pub mod Texts
pub mod ConnectionMap
pub mod Actions
pub mod Menu
pub mod Submission
pub mod Chat
pub mod Input
pub mod Loop
pub mod Reader
mod Examples
mod StepExamples
pub mod Server
pub mod Run
pub mod Watcher
