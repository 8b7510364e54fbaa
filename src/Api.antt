-- ===== src/Api.antt =====
-- dashboard/src/lib/api.ts and auth.ts: the data that the server sends, the session kept in the
-- browser, and the calls.
pub mod Types
pub mod Scripts
pub mod Session
pub mod Http
pub mod Variants
pub mod Admin
pub mod DeviceCalls
pub mod ScriptCalls
pub mod ScriptReader
pub mod Queries
pub mod SessionLaws
