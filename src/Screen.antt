-- ===== src/Screen.antt =====
-- The component of frontend/League Table.dc.html: its state, the handlers of what a user does, and
-- the requests that they send and whose answers change the state later.
pub mod Types
pub mod Show
pub mod Handlers
pub mod Events
pub mod Answers
pub mod Steps
pub mod Proper
pub mod Reached
pub mod Late
pub mod Own
pub mod Calls
pub mod Table
