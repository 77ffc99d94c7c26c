-- ===== src/Scan.antt =====
-- The security treatment of a document: apps/worker/src/scan and the sweep and reprocessing of
-- apps/worker/src/queue.ts.
pub mod Repository
pub mod Recovery
pub mod Invariant
pub mod Fencing
pub mod Results
pub mod Sweeps
pub mod Treatment
pub mod Outcome
