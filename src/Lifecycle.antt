-- ===== src/Lifecycle.antt =====
-- The life of the rows of `documents`, under every statement of the API and of the worker that
-- writes the table.
pub mod Rows
pub mod Statements
pub mod OcrStatements
pub mod OcrSweep
pub mod Reach
