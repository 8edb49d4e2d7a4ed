-- ===== src/Server.antt =====
-- main.c and response.c: the settings, the answer to a request, and the threads.
pub mod Threads
pub mod Settings
pub mod Configure
pub mod Response
pub mod Answer
pub mod Process
pub mod Start
