-- ===== src/Antivirus.antt =====
-- apps/worker/src/antivirus/clamav.ts: the parsing of clamd's answer and the scan over a socket,
-- whose events come in any order. Decoding a buffer as UTF-8 is the platform's: a parameter. Treated
-- puts it behind the scan of the documents (apps/worker/src/main.ts).
pub mod Reply
pub mod Socket
pub mod Lines
pub mod Strict
pub mod Answered
pub mod Treated
