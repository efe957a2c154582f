-- ===== src/Worker.antt =====
-- worker/worker.py: the process that takes jobs from the server, runs their tests and reports the
-- results.
pub mod Outbox
pub mod Jobs
pub mod Loops
