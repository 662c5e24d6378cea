-- ===== src/Api.antt =====
-- src/api/analyze.ts: the client of the scanner.
pub mod Errors
pub mod Response
pub mod Retry
pub mod Stream
pub mod Pool
pub mod Scan
