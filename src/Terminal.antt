-- ===== src/Terminal.antt =====
-- dashboard/src/app/(protected)/terminal/page.tsx: the remote terminal.
pub mod Output
pub mod Page
pub mod Run
pub mod Poll
pub mod Keys
pub mod Events
pub mod View
