-- ===== src/Shell.antt =====
-- The frame of the site: the guard of the protected pages and their menu (layout.tsx), and the
-- login (login/page.tsx).
pub mod Guard
pub mod Menu
pub mod Login
pub mod Access
pub mod Offered
pub mod Entry
pub mod Sessions
pub mod Frame
pub mod LoginView
