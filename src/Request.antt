-- ===== src/Request.antt =====
-- request.c and request.h, the parser of HTTP requests.
pub mod State
pub mod Io
pub mod Text
pub mod Method
pub mod Field
pub mod Uri
pub mod Version
pub mod Parse
pub mod Chunks
pub mod Accepted
mod Tests
