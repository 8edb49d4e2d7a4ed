-- ===== src/Log/Logger/Bounds.antt =====
-- When `log_write` leaves the buffer of an output.
use nvhttpd.Base.{ℕ, ◌≤◌, Option, none, some, ◌≡◌, ◌↔◌, refl, arith, length}
use nvhttpd.Base.Chars.{Bytes}
use nvhttpd.Log.Level.{LogLevel, level_number}
use nvhttpd.Log.Logger.{Logger, Call, end_text, log_write, log_at}

-- vsnprintf fails, or there is no room for the newline and the NUL behind the text.
abbrev pub IsTooLong : Option Bytes → Type 0
IsTooLong none = Unit {0}
IsTooLong (some text) = 1023 ≤ length text

abbrev nowhere : Option Bytes
nowhere = none

end_text-IsTooLong : (text : Option Bytes) → (end_text text ≡ nowhere) ↔ IsTooLong text
unfolding end_text
end_text-IsTooLong none = (λ h. tt, λ h. refl)
end_text-IsTooLong (some text) = ground arith

abbrev outside : Option Logger
outside = none

log_write-outside :
    (level : LogLevel) (call : Call) (a : ℕ) (log : Logger)
    → (log_write level call (some a) log ≡ outside) ↔ (end_text call.text ≡ nowhere)
unfolding log_write
log_write-outside level call a log = ground arith

abbrev crashed : Option (Option Logger)
crashed = none

-- On a log that is not NULL, and where malloc gives memory, a macro of log.h writes outside the
-- buffer exactly where its level is logged, and vsnprintf fails or the text has 1023 bytes or more.
pub log_at-IsTooLong :
    (level : LogLevel) (log : Logger) (call : Call) (a : ℕ)
    → (log_at level (some log) call (some a) ≡ crashed)
      ↔ ((level_number level ≤ level_number log.log_level) × IsTooLong call.text)
unfolding log_at
log_at-IsTooLong level log call a =
    let inner = log_write-outside level call a log in
    let text = end_text-IsTooLong call.text in ground (arith, inner.0, inner.1, text.0, text.1)
