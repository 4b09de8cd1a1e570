-- ===== src/Store.antt =====
-- internal/store: the platform's state, in SQLite. A table is an association list by its primary
-- key, and the model starts where the driver answers: its errors are not modelled.
pub mod Ports
pub mod Deployments
pub mod Services
pub mod Projects
