-- ===== src/Devices.antt =====
-- The devices page (devices/page.tsx).
pub mod Ids
pub mod Show
pub mod Dialog
pub mod Load
pub mod View
pub mod Modal
pub mod Events
