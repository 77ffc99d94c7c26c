-- ===== src/Sanitize.antt =====
-- Removal of identifying metadata from images: apps/worker/src/sanitize/image-metadata.ts.
pub mod Bytes
pub mod Png
pub mod Jpeg
