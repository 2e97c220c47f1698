-- ===== src/Restart.antt =====
-- How workloads are restarted: frontend/src/hooks/useKubernetes.ts. Restart.Document is the change of a
-- workload's YAML, Restart.Requests the requests and what they report.
pub mod Document
pub mod Requests
pub mod All
pub mod Told
mod Tests
