-- ===== src/Pods.antt =====
-- frontend/src/hooks/useRealtimePods.ts: the live list of pods.
pub mod Raw
mod Tests
pub mod Spec
pub mod Details
pub mod Status
pub mod Row
pub mod Merge
pub mod Keys
pub mod Reducer
pub mod Sync
pub mod Invariant
pub mod Hook
pub mod Connection
