-- ===== src/Config.antt =====
-- config.c: the reader of the configuration file.
pub mod State
pub mod Io
pub mod Block
pub mod Value
pub mod Section
pub mod Parse
pub mod Ends
pub mod Chunks
pub mod RoundTrip
mod Tests
