-- ===== src/Logline.antt =====
-- internal/logline: from a byte stream to log lines and batches.
pub mod Line
pub mod Split
pub mod Scanner
pub mod Records
pub mod Tokens
pub mod Scanned
pub mod Passes
pub mod Yields
pub mod Lossless
pub mod ReadBack
pub mod Batch
