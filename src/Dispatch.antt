-- ===== src/Dispatch.antt =====
-- harness/worker_dispatch.py.
pub mod Reaper
pub mod Lifecycle
pub mod Ingest
pub mod Remote
