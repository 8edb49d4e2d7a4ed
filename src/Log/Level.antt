-- ===== src/Log/Level.antt =====
-- The levels of log.h, and the names that log.c gives them.
use nvhttpd.Base.{ℕ}
use nvhttpd.Base.Chars.{Bytes, codes}

-- LOG_ALL is LOG_TRACE.
pub data LogLevel : Type 0 where
  log_error log_warn log_info log_debug log_trace : LogLevel

abbrev pub level_number : LogLevel → ℕ
level_number log_error = 0
level_number log_warn = 1
level_number log_info = 2
level_number log_debug = 3
level_number log_trace = 4

-- `LEVELS`
abbrev pub level_name : LogLevel → Bytes
level_name log_error = codes "ERROR"
level_name log_warn = codes "WARN"
level_name log_info = codes "INFO"
level_name log_debug = codes "DEBUG"
level_name log_trace = codes "TRACE"
