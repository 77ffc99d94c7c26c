-- ===== src/Ocr.antt =====
-- The OCR of a document: apps/worker/src/ocr.
pub mod Repository
pub mod Recovery
pub mod Activation
pub mod Invariant
pub mod Fencing
pub mod Execution
pub mod Process
pub mod Outcome
pub mod Activated
pub mod Texts
