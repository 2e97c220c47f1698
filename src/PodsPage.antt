-- ===== src/PodsPage.antt =====
-- The list page of pods: its rows, its table, its selection and the deletion of pods.
-- frontend/src/pages/PodsPage.tsx, with frontend/src/components/DataTable.tsx and ConfirmDialog.tsx.
pub mod Table
pub mod Rows
pub mod Page
pub mod Shown
pub mod Listed
pub mod Checked
pub mod Dialog
pub mod Deleted
pub mod Late
pub mod Tooltips
pub mod Chosen
mod Tests
