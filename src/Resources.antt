-- ===== src/Resources.antt =====
-- frontend/src/hooks/useRealtimeResources.ts: the live lists of all other resources.
pub mod Errors
pub mod Kind
pub mod Reducer
pub mod Laws
pub mod Deletion
pub mod Hook
pub mod Trace
pub mod RoundTrip
mod Tests
