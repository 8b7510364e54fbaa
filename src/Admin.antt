-- ===== src/Admin.antt =====
-- The administration pages: tenants, users, branches and tags, settings, the branded client, the
-- audit and the overview.
pub mod Buttons
pub mod Tenants
pub mod Users
pub mod Places
pub mod Settings
pub mod Branding
pub mod Audit
pub mod Overview
