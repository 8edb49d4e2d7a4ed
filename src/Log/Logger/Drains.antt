-- ===== src/Log/Logger/Drains.antt =====
-- The writer, told to stop, writes what is left and ends.
use mathlib.Core.Path.{subst}
use mathlib.Core.List.{map}
use nvhttpd.Base.{
  ℕ, zero, suc, ◌+◌, ◌*◌, ◌≤◌, ◌<◌, true, false, List, [], ◌∷◌, ◌++◌, Option, none, some,
  append-nil, ◌≡◌, ◌≢◌, refl, sym, ap, ◌∙◌, arith, length, length-append,
}
use nvhttpd.Base.Chars.{Bytes}
use nvhttpd.Log.{LogQueue, returns, dequeue_head, dequeue}
use nvhttpd.Log.Level.{LogLevel}
use nvhttpd.Log.Fifo.{dequeue-Takes}
use nvhttpd.Log.Logger.{
  Output, Writer, dequeuing, writing, ended, Logger, Tm, line_of, dequeued, step_at, run_writer,
  stopped, log_cleanup, Steps, log_init, app_name_or,
}
use nvhttpd.Log.Logger.Live.{contains}
use nvhttpd.Log.Logger.Ordered.{held, lines, IsOrdered, emptied, at_stop, some_inj}
use nvhttpd.Log.Logger.InOrder.{takes-IsOrdered, prints-IsOrdered, ends-IsOrdered, Steps-IsOrdered}
use nvhttpd.Log.Logger.Names.{Steps-SameNames}

dequeue_head-stop :
    (head : Option ℕ) (queue q : LogQueue) (a : ℕ)
    → dequeue_head head queue ≡ returns (some a) q
    → q.stop ≡ queue.stop
unfolding dequeue_head
dequeue_head-stop none queue q a h = ground arith
dequeue_head-stop (some x) queue q a h = ground arith

dequeue-stop :
    (queue q : LogQueue) (a : ℕ) → dequeue queue ≡ returns (some a) q → q.stop ≡ queue.stop
unfolding dequeue
dequeue-stop queue q a h = dequeue_head-stop queue.head queue q a h

module _ (gmtime_r : ℕ → Tm) where
  -- The writer has ended, the lines are in the file, and of the outputs only those are allocated
  -- that the threads still fill.
  abbrev pub IsDrained : Logger → List Output → Logger → Type 0
  IsDrained log logged log' =
      (log'.writer ≡ ended)
      × (log'.fs ≡ lines gmtime_r log logged)
      × ((a : ℕ) → log'.is_allocated a ≡ contains a log'.pending)

  run_ended : (n : ℕ) (log : Logger) → log.writer ≡ ended → run_writer gmtime_r n log ≡ log
  unfolding run_writer step_at
  run_ended zero log e = refl
  run_ended (suc n) log e =
      ap (λ w. run_writer gmtime_r n (step_at gmtime_r w log)) e ∙ run_ended n log e

  ended-IsDrained :
      (log : Logger) (logged : List Output)
      → log.writer ≡ ended
      → IsOrdered gmtime_r log logged []
      → IsDrained log logged log
  ended-IsDrained log logged e r = (
    e,
    sym (
        r.order
        ∙ ap
            (λ w.
              log.fs
              ++ map (λ a. line_of gmtime_r log.app_name log.pid (log.outputs a)) (held w ++ []))
            e
        ∙ append-nil log.fs),
    λ a.
        r.owned a
        ∙ ap (λ w. contains a (log.pending ++ (held w ++ []))) e
        ∙ ap (contains a) (append-nil log.pending),
  )

  -- From `dequeue`, each output takes two steps.
  drains :
      (xs : List ℕ) (n : ℕ) (log : Logger) (logged : List Output)
      → log.writer ≡ dequeuing
      → log.queue.stop ≡ true
      → IsOrdered gmtime_r log logged xs
      → 2 * length xs < n
      → IsDrained log logged (run_writer gmtime_r n log)
  unfolding run_writer step_at
  drains xs zero log logged e stop r enough = absurd (omega arith)
  drains [] (suc n) log logged e stop r enough =
      let last = record log { queue = emptied log.queue; writer = ended } in
      let none_left = dequeue-Takes log.queue [] r.holds ∙ ap (at_stop log.queue) stop in
      let steps =
        ap (λ w. run_writer gmtime_r n (step_at gmtime_r w log)) e
        ∙ ap (λ d. run_writer gmtime_r n (dequeued gmtime_r log d)) none_left
        ∙ run_ended n last refl in
      subst (IsDrained log logged) (sym steps)
        (ended-IsDrained last logged refl (ends-IsOrdered gmtime_r log logged e stop r))
  drains (x ∷ xs) (suc zero) log logged e stop r enough = absurd (omega arith)
  drains (x ∷ xs) (suc (suc n)) log logged e stop r enough =
      let (q, is, h) = dequeue-Takes log.queue (x ∷ xs) r.holds in
      let log₁ = record log { queue = q; writer = writing x } in
      let r₁ = takes-IsOrdered gmtime_r log logged x xs q e h r in
      let steps =
        ap (λ w. run_writer gmtime_r (suc n) (step_at gmtime_r w log)) e
        ∙ ap (λ d. run_writer gmtime_r (suc n) (dequeued gmtime_r log d)) is in
      subst (IsDrained log logged) (sym steps) (
        drains xs n (step_at gmtime_r (writing x) log₁) logged refl
          (dequeue-stop log.queue q x is ∙ stop)
          (prints-IsOrdered gmtime_r log₁ logged xs x refl r₁) (omega arith))

  drains_at :
      (w : Writer) (xs : List ℕ) (n : ℕ) (log : Logger) (logged : List Output)
      → log.writer ≡ w
      → w ≢ ended
      → log.queue.stop ≡ true
      → IsOrdered gmtime_r log logged xs
      → 2 * length xs + 1 < n
      → IsDrained log logged (run_writer gmtime_r n log)
  unfolding run_writer step_at
  drains_at w xs zero log logged e on stop r enough = absurd (omega arith)
  drains_at dequeuing xs (suc n) log logged e on stop r enough =
      drains xs (suc n) log logged e stop r (omega arith)
  drains_at (writing a) xs (suc n) log logged e on stop r enough =
      subst (IsDrained log logged)
        (sym (ap (λ w. run_writer gmtime_r n (step_at gmtime_r w log)) e))
        (drains xs n (step_at gmtime_r (writing a) log) logged refl stop
          (prints-IsOrdered gmtime_r log logged xs a e r) (omega arith))
  drains_at ended xs (suc n) log logged e on stop r enough = absurd (on refl)

  length-map : {A B : Type 0} (f : A → B) (xs : List A) → length (map f xs) ≡ length xs
  length-map f [] = refl
  length-map f (x ∷ xs) = ap suc (length-map f xs)

  -- What is still in the queue was logged.
  queued-le :
      (log : Logger) (logged : List Output) (queued : List ℕ)
      → IsOrdered gmtime_r log logged queued
      → length queued ≤ length logged
  queued-le log logged queued r =
      let line_at = λ (a : ℕ). line_of gmtime_r log.app_name log.pid (log.outputs a) in
      omega (
        arith,
        length-map (line_of gmtime_r log.app_name log.pid) logged,
        ap length r.order,
        length-append log.fs (map line_at (held log.writer ++ queued)),
        length-map line_at (held log.writer ++ queued),
        length-append (held log.writer) queued,
      )

  cleaned :
      (fuel : ℕ) (log : Logger) (text : List Bytes)
      → (run_writer gmtime_r fuel (stopped gmtime_r log)).writer ≡ ended
      → (run_writer gmtime_r fuel (stopped gmtime_r log)).fs ≡ text
      → log_cleanup gmtime_r fuel log ≡ some text
  unfolding log_cleanup
  cleaned fuel log text e is = ground arith

  -- Whatever the threads have done since log_init, in whatever order: log_cleanup, called once and
  -- when no thread logs any more, ends, and the file then holds the line of every output that was
  -- put in the queue, in the order of enqueue. Two steps of the writer for each are enough.
  pub log_cleanup-writes_all :
      (pid : ℕ) (level : LogLevel) (app_name : Option Bytes) (fuel : ℕ) {start log : Logger}
      {logged : List Output}
      → log_init true true pid level app_name ≡ some start
      → Steps gmtime_r start logged log
      → log.queue.stop ≡ false
      → 2 * length logged + 1 < fuel
      → log_cleanup gmtime_r fuel log
        ≡ some (map (line_of gmtime_r (app_name_or app_name) pid) logged)
  unfolding log_init
  log_cleanup-writes_all pid level app_name fuel {start} {log} {logged} is steps on enough =
      let (queued, r) = Steps-IsOrdered gmtime_r pid level app_name is steps in
      let still = queued-le log logged queued r in
      let told : IsOrdered gmtime_r (stopped gmtime_r log) logged queued = record {
        holds = r.holds;
        distinct = r.distinct;
        owned = r.owned;
        order = r.order;
        told = λ e. refl;
      } in
      let drained =
        drains_at log.writer queued fuel (stopped gmtime_r log) logged refl (λ e. cc (r.told e))
          refl told (omega arith) in
      let same = Steps-SameNames gmtime_r steps in
      let names = same.0 ∙ ap (λ (l : Logger). l.app_name) (sym (some_inj is)) in
      let number = same.1 ∙ ap (λ (l : Logger). l.pid) (sym (some_inj is)) in
      cleaned fuel log (map (line_of gmtime_r (app_name_or app_name) pid) logged) drained.0 (
        drained.1
        ∙ ap (λ name. map (line_of gmtime_r name log.pid) logged) names
        ∙ ap (λ n. map (line_of gmtime_r (app_name_or app_name) n) logged) number)
