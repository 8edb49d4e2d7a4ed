-- ===== src/Log/Logger.antt =====
-- log.c and the macros of log.h: the threads that log, and the thread that writes what they logged.
pub mod Live
pub mod Ordered
pub mod InOrder
pub mod Names
pub mod Drains
pub mod Bounds
mod Tests
use nvhttpd.Base.{
  ℕ, zero, suc, ◌+◌, ◌-◌, Bool, true, false, List, [], ◌∷◌, Option, none, some, ◌++◌, ltb, leb,
  ◌==◌, ◌≡◌, if◌then◌else◌, length, replicate,
}
use nvhttpd.Base.Chars.{Bytes, codes}
use nvhttpd.Server.Response.{printed_long}
use nvhttpd.Log.{LogQueue, enqueue, Dequeued, waits, returns, dequeue}
use nvhttpd.Log.Level.{LogLevel, level_number, level_name}

-- `output_s` without its link, which `Links` holds. `buffer` is the text in it, up to its NUL.
pub record Output : Type 0 where
  pub raw_time : ℕ
  pub source : Bytes
  pub line : ℕ
  pub level : Bytes
  pub buffer : Bytes
  pub tid : ℕ

-- Where the thread of `writer` is: in `dequeue`, or with an output from it, or at its end.
pub data Writer : Type 0 where
  dequeuing : Writer
  writing : ℕ → Writer
  ended : Writer

-- `log_s` with its queue, and what the threads share besides. `is_allocated` are the outputs that
-- malloc gave and that are not freed, `outputs` what they hold; `pending` are those that a thread
-- has filled and not yet put in the queue. `fs` are the lines that were written, in their order.
pub record Logger : Type 0 where
  pub log_level : LogLevel
  pub pid : ℕ
  pub app_name : Bytes
  pub queue : LogQueue
  pub is_allocated : ℕ → Bool
  pub outputs : ℕ → Output
  pub pending : List ℕ
  pub writer : Writer
  pub fs : List Bytes

abbrev pub app_name_or : Option Bytes → Bytes
app_name_or none = codes "noname"
app_name_or (some name) = name

-- `log_init`; the first two arguments are the results of its calls of malloc, then comes that of
-- getpid. The thread is started.
unfoldable pub log_init : Bool → Bool → ℕ → LogLevel → Option Bytes → Option Logger
log_init false got_queue pid level app_name = none
log_init true false pid level app_name = none
log_init true true pid level app_name = some (record {
  log_level = level;
  pid = pid;
  app_name = app_name_or app_name;
  queue = record { head = none; tail = none; stop = false; next = λ a. none };
  is_allocated = λ a. false;
  outputs = λ a. record { raw_time = 0; source = []; line = 0; level = []; buffer = []; tid = 0 };
  pending = [];
  writer = dequeuing;
  fs = [];
})

-- What a thread hands to `log_write`, and what the calls there give: the time, the number of the
-- thread, and the text of the format and its arguments; `none` where vsnprintf fails.
pub record Call : Type 0 where
  pub source_name : Bytes
  pub line_number : ℕ
  pub now : ℕ
  pub gettid : ℕ
  pub text : Option Bytes

abbrev pub log_buffer_size : ℕ
log_buffer_size = 1024

-- The buffer behind vsnprintf and the two assignments, at the length that vsnprintf returns; `none`
-- is a write outside the buffer.
unfoldable pub end_text : Option Bytes → Option Bytes
end_text none = none
end_text (some text) =
    if ltb (length text + 1) log_buffer_size then some (text ++ 10 ∷ []) else none

unfoldable pub new_output : LogLevel → Call → Bytes → Output
new_output level call buffer = record {
  raw_time = call.now;
  source = call.source_name;
  line = call.line_number;
  level = level_name level;
  buffer = buffer;
  tid = call.gettid;
}

abbrev pub put {ℓ} : {A : Type ℓ} → ℕ → A → (ℕ → A) → ℕ → A
put a x f b = if b == a then x else f b

-- A thread has filled the output that malloc gave it at `a`.
abbrev pub filled : Logger → ℕ → Output → Logger
filled log a output = record log {
  is_allocated = put a true log.is_allocated;
  outputs = put a output log.outputs;
  pending = a ∷ log.pending;
}

-- The list without one occurrence of `a`.
abbrev pub without : ℕ → List ℕ → List ℕ
without a [] = []
without a (x ∷ xs) = if x == a then xs else x ∷ without a xs

-- The last call of `log_write`.
abbrev pub enqueued : Logger → ℕ → Logger
enqueued log a = record log { queue = enqueue log.queue a; pending = without a log.pending }

-- `log_write`, where no other thread comes between; malloc gives the address in the third argument,
-- or NULL.
unfoldable pub log_write : LogLevel → Call → Option ℕ → Logger → Option Logger
log_write level call none log = some log
log_write level call (some a) log = elim (end_text call.text) [
  | none ↦ none
  | some buffer ↦ some (enqueued (filled log a (new_output level call buffer)) a)
]

-- The test of the macros of log.h, on a log that may be NULL.
unfoldable pub log_at : LogLevel → Option Logger → Call → Option ℕ → Option (Option Logger)
log_at level none call got = some none
log_at level (some log) call got =
    if leb (level_number level) (level_number log.log_level)
    then elim (log_write level call got log) [ none ↦ none | some log' ↦ some (some log') ]
    else some (some log)

abbrev pub log_error : Option Logger → Call → Option ℕ → Option (Option Logger)
log_error = log_at LogLevel.log_error

abbrev pub log_warn : Option Logger → Call → Option ℕ → Option (Option Logger)
log_warn = log_at LogLevel.log_warn

abbrev pub log_info : Option Logger → Call → Option ℕ → Option (Option Logger)
log_info = log_at LogLevel.log_info

abbrev pub log_debug : Option Logger → Call → Option ℕ → Option (Option Logger)
log_debug = log_at LogLevel.log_debug

abbrev pub log_trace : Option Logger → Call → Option ℕ → Option (Option Logger)
log_trace = log_at LogLevel.log_trace

-- What gmtime_r gives, and the log prints.
pub record Tm : Type 0 where
  pub tm_year : ℕ
  pub tm_mon : ℕ
  pub tm_mday : ℕ
  pub tm_hour : ℕ
  pub tm_min : ℕ
  pub tm_sec : ℕ

-- `%04i` and `%02i`, of a number that is not negative.
unfoldable pub zero_padded : ℕ → ℕ → Bytes
zero_padded width n =
    let digits = printed_long n in replicate (width - length digits) b'0' ++ digits

-- `% 6i`, of a number that is not negative.
unfoldable pub blank_padded : ℕ → ℕ → Bytes
blank_padded width n =
    let digits = b' ' ∷ printed_long n in replicate (width - length digits) b' ' ++ digits

-- The line of an output: what `writer` prints with fprintf and fputs.
unfoldable pub line_of : (ℕ → Tm) → Bytes → ℕ → Output → Bytes
line_of gmtime_r app_name pid output =
    let tm = gmtime_r output.raw_time in
    zero_padded 4 (tm.tm_year + 1900)
    ++ codes "-"
    ++ zero_padded 2 (tm.tm_mon + 1)
    ++ codes "-"
    ++ zero_padded 2 tm.tm_mday
    ++ codes " "
    ++ zero_padded 2 tm.tm_hour
    ++ codes ":"
    ++ zero_padded 2 tm.tm_min
    ++ codes ":"
    ++ zero_padded 2 tm.tm_sec
    ++ codes "  "
    ++ app_name
    ++ codes "  "
    ++ blank_padded 6 pid
    ++ codes "  "
    ++ blank_padded 6 output.tid
    ++ codes "  "
    ++ output.source
    ++ codes "  "
    ++ blank_padded 6 output.line
    ++ codes "  "
    ++ output.level
    ++ replicate (5 - length output.level) b' '
    ++ codes "  "
    ++ output.buffer

module _ (gmtime_r : ℕ → Tm) where
  -- Behind `dequeue`: with no output the loop ends.
  abbrev pub dequeued : Logger → Dequeued → Logger
  dequeued log waits = log
  dequeued log (returns none queue) = record log { queue = queue; writer = ended }
  dequeued log (returns (some a) queue) = record log { queue = queue; writer = writing a }

  -- Where the thread of `writer` is decides its next step.
  unfoldable pub step_at : Writer → Logger → Logger
  step_at dequeuing log = dequeued log (dequeue log.queue)
  step_at (writing a) log = record log {
    fs = log.fs ++ line_of gmtime_r log.app_name log.pid (log.outputs a) ∷ [];
    is_allocated = put a false log.is_allocated;
    writer = dequeuing;
  }
  step_at ended log = log

  -- A step of `writer`: `dequeue`, or the printing and freeing of an output.
  abbrev pub writer_step : Logger → Logger
  writer_step log = step_at log.writer log

  unfoldable pub run_writer : ℕ → Logger → Logger
  run_writer zero log = log
  run_writer (suc n) log = run_writer n (writer_step log)

  -- `log_cleanup` up to the broadcast.
  abbrev pub stopped : Logger → Logger
  stopped log = record log { queue = record log.queue { stop = true } }

  -- `log_cleanup` on a log that is not NULL, where no thread logs meanwhile: the lines in the file
  -- when the writer has been joined. `none` is that it has not ended after so many steps.
  unfoldable pub log_cleanup : ℕ → Logger → Option (List Bytes)
  log_cleanup fuel log =
      let log' = run_writer fuel (stopped log) in
      elim log'.writer [ ended ↦ some log'.fs | _ ↦ none ]

  -- A step of the threads, and the output that it puts in the queue.
  pub data Step (log : Logger) : List Output → Logger → Type 0 where
    -- Up to `enqueue`; malloc gives a block that is not in use.
    fills :
        (level : LogLevel) (call : Call) (buffer : Bytes) (a : ℕ)
        → log.is_allocated a ≡ false
        → end_text call.text ≡ some buffer
        → Step log [] (filled log a (new_output level call buffer))
    enqueues :
        (before after : List ℕ) (a : ℕ)
        → log.pending ≡ before ++ a ∷ after
        → Step log (log.outputs a ∷ []) (enqueued log a)
    writes : Step log [] (writer_step log)
    stops : Step log [] (stopped log)

  -- What the threads put in the queue on the way from the first state, in the order of `enqueue`.
  pub data Steps (log : Logger) : List Output → Logger → Type 0 where
    here : Steps log [] log
    next :
        {t u : Logger} {logged out : List Output}
        → Steps log logged t
        → Step t out u
        → Steps log (logged ++ out) u
