-- ===== src/Log/Logger/Tests.antt =====
-- Two threads log, and the writer writes one of their lines before the cleanup.
use mathlib.Core.List.{map}
use nvhttpd.Base.{ℕ, ◌≤◌, true, false, List, [], ◌∷◌, none, some, ◌≡◌, ◌↔◌, refl, arith, replicate}
use nvhttpd.Base.Chars.{Bytes, codes}
use nvhttpd.Server.Response.{digits_from, printed_long}
use nvhttpd.Log.{append_output, enqueue, dequeue_head, dequeue}
use nvhttpd.Log.Level.{LogLevel, level_number}
use nvhttpd.Log.Logger.{
  Output, dequeuing, Logger, Call, Tm, log_init, end_text, new_output, filled, enqueued, log_at,
  zero_padded, blank_padded, line_of, step_at, writer_step, run_writer, log_cleanup, fills,
  enqueues, writes, Steps, here, next,
}
use nvhttpd.Log.Logger.Ordered.{IsOrdered}
use nvhttpd.Log.Logger.InOrder.{Steps-IsOrdered}
use nvhttpd.Log.Logger.Drains.{log_cleanup-writes_all}
use nvhttpd.Log.Logger.Bounds.{IsTooLong, log_at-IsTooLong}

program : Unit {0}
unfolding append_output enqueue dequeue_head dequeue log_init end_text new_output log_at zero_padded
    blank_padded line_of step_at run_writer log_cleanup digits_from printed_long
program = tt

abbrev gmtime_r : ℕ → Tm
gmtime_r t = record {
  tm_year = 124;
  tm_mon = 10;
  tm_mday = 27;
  tm_hour = 9;
  tm_min = 5;
  tm_sec = t;
}

abbrev call : ℕ → Bytes → Call
call thread text = record {
  source_name = codes "main.c";
  line_number = 170;
  now = 30;
  gettid = thread;
  text = some text;
}

abbrev start : Logger
start = record {
  log_level = LogLevel.log_info;
  pid = 12;
  app_name = codes "noname";
  queue = record { head = none; tail = none; stop = false; next = λ a. none };
  is_allocated = λ a. false;
  outputs = λ a. record { raw_time = 0; source = []; line = 0; level = []; buffer = []; tid = 0 };
  pending = [];
  writer = dequeuing;
  fs = [];
}

start-log_init : log_init true true 12 LogLevel.log_info none ≡ some start
unfolding program
start-log_init = refl

abbrev first : Output
first = new_output LogLevel.log_info (call 14 (codes "a")) (codes "a\n")

abbrev second : Output
second = new_output LogLevel.log_error (call 15 (codes "b")) (codes "b\n")

abbrev both_filled : Logger
both_filled = filled (filled start 7 first) 9 second

abbrev both_queued : Logger
both_queued = enqueued (enqueued both_filled 9) 7

-- The thread that allocated last is the first at the mutex.
run : Steps gmtime_r start (second ∷ first ∷ []) (writer_step gmtime_r both_queued)
unfolding program
run =
    next
      (next
        (next
          (next
            (next here (fills LogLevel.log_info (call 14 (codes "a")) (codes "a\n") 7 refl refl))
            (fills LogLevel.log_error (call 15 (codes "b")) (codes "b\n") 9 refl refl))
          (enqueues [] (7 ∷ []) 9 refl))
        (enqueues [] [] 7 refl))
      writes

Steps-IsOrdered_example :
    (queued : List ℕ) × IsOrdered gmtime_r
      (writer_step gmtime_r both_queued)
      (second ∷ first ∷ [])
      queued
Steps-IsOrdered_example = Steps-IsOrdered gmtime_r 12 LogLevel.log_info none start-log_init run

log_cleanup-writes_all_example :
    log_cleanup gmtime_r 6 (writer_step gmtime_r both_queued)
    ≡ some (map (line_of gmtime_r (codes "noname") 12) (second ∷ first ∷ []))
unfolding program
log_cleanup-writes_all_example =
    log_cleanup-writes_all gmtime_r 12 LogLevel.log_info none 6 start-log_init run refl
      (omega arith)

-- The line as the log shows it.
first_line :
    line_of gmtime_r (codes "noname") 12 first
    ≡ codes "2024-11-27 09:05:30  noname      12      14  main.c     170  INFO   a\n"
unfolding program
first_line = refl

log_at-IsTooLong_example :
    (log_at LogLevel.log_info (some start) (call 14 (replicate 1023 b'a')) (some 7) ≡ none) ↔ (
      (level_number LogLevel.log_info ≤ level_number LogLevel.log_info)
      × IsTooLong (some (replicate 1023 b'a')))
log_at-IsTooLong_example =
    log_at-IsTooLong LogLevel.log_info start (call 14 (replicate 1023 b'a')) 7
