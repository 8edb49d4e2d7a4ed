-- ===== src/Request/Chunks.antt =====
-- request_parse reads a stream: it does not depend on how recv cuts the bytes into pieces, and its
-- loops end.
pub mod Runs
pub mod Reader
pub mod Texts
pub mod Fields
pub mod Line
pub mod Whole
