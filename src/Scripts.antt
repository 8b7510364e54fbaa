-- ===== src/Scripts.antt =====
-- dashboard/src/app/(protected)/scripts/page.tsx: the scripts, their builder and their execution.
pub mod Flow
pub mod Builder
pub mod Execute
pub mod Panel
pub mod Controls
pub mod History
pub mod Results
pub mod ExecuteView
pub mod BuilderView
