-- ===== src/Log/Logger/InOrder.antt =====
-- The file and the queue together hold what was logged, in its order; kept by the writer, and by all
-- steps.
use mathlib.Core.Path.{subst}
use nvhttpd.Base.{
  ℕ, true, List, [], ◌∷◌, ◌++◌, Option, some, append-nil, append_assoc, ◌≡◌, refl, sym, ap, ◌∙◌,
  inl, inr, Bool-cases, ==_iff, arith,
}
use nvhttpd.Base.Chars.{Bytes}
use nvhttpd.Log.{LogQueue, Dequeued}
use nvhttpd.Log.Level.{LogLevel}
use nvhttpd.Log.Fifo.{Chain, Holds, dequeue-Takes}
use nvhttpd.Log.Logger.{
  Output, Writer, dequeuing, writing, ended, Logger, new_output, Tm, line_of, dequeued, step_at,
  Step, fills, enqueues, writes, stops, Steps, here, next, log_init,
}
use nvhttpd.Log.Logger.Live.{contains, Distinct, Distinct-dropped, contains_dropped}
use nvhttpd.Log.Logger.Ordered.{
  held, lines_at, IsOrdered, emptied, at_stop, fills-IsOrdered, enqueues-IsOrdered, some_inj,
}

module _ (gmtime_r : ℕ → Tm) where
  pub takes-IsOrdered :
      (log : Logger) (logged : List Output) (x : ℕ) (xs : List ℕ) (q : LogQueue)
      → log.writer ≡ dequeuing
      → Holds q xs
      → IsOrdered gmtime_r log logged (x ∷ xs)
      → IsOrdered gmtime_r (record log { queue = q; writer = writing x }) logged xs
  takes-IsOrdered log logged x xs q e h r = record {
    holds = h;
    distinct = subst (λ w. Distinct (log.pending ++ (held w ++ x ∷ xs))) e r.distinct;
    owned = λ b. r.owned b ∙ ap (λ w. contains b (log.pending ++ (held w ++ x ∷ xs))) e;
    order = r.order ∙ ap (λ w. log.fs ++ lines_at gmtime_r log (held w ++ x ∷ xs)) e;
    told = λ h. cc;
  }

  pub ends-IsOrdered :
      (log : Logger) (logged : List Output)
      → log.writer ≡ dequeuing
      → log.queue.stop ≡ true
      → IsOrdered gmtime_r log logged []
      → IsOrdered gmtime_r (record log { queue = emptied log.queue; writer = ended }) logged []
  unfolding Chain
  ends-IsOrdered log logged e stop r = record {
    holds = (refl, refl);
    distinct = subst (λ w. Distinct (log.pending ++ (held w ++ []))) e r.distinct;
    owned = λ b. r.owned b ∙ ap (λ w. contains b (log.pending ++ (held w ++ []))) e;
    order = r.order ∙ ap (λ w. log.fs ++ lines_at gmtime_r log (held w ++ [])) e;
    told = λ h. stop;
  }

  dequeues-IsOrdered :
      (log : Logger) (logged : List Output) (queued : List ℕ)
      → log.writer ≡ dequeuing
      → IsOrdered gmtime_r log logged queued
      → (queued' : List ℕ) × IsOrdered gmtime_r (step_at gmtime_r dequeuing log) logged queued'
  unfolding step_at
  dequeues-IsOrdered log logged (x ∷ xs) e r =
      let (q, is, h) = dequeue-Takes log.queue (x ∷ xs) r.holds in
      (xs, rw is (takes-IsOrdered log logged x xs q e h r))
  dequeues-IsOrdered log logged [] e r =
      let on_empty = λ (d : Dequeued). IsOrdered gmtime_r (dequeued gmtime_r log d) logged [] in
      let taken = dequeue-Takes log.queue [] r.holds in
      elim (Bool-cases log.queue.stop) [
        | inl stop ↦ (
          [],
          subst on_empty (sym (taken ∙ ap (at_stop log.queue) stop))
              (ends-IsOrdered log logged e stop r),
        )
        | inr on ↦ ([], subst on_empty (sym (taken ∙ ap (at_stop log.queue) on)) r)
      ]

  pub prints-IsOrdered :
      (log : Logger) (logged : List Output) (queued : List ℕ) (a : ℕ)
      → log.writer ≡ writing a
      → IsOrdered gmtime_r log logged queued
      → IsOrdered gmtime_r (step_at gmtime_r (writing a) log) logged queued
  unfolding step_at
  prints-IsOrdered log logged queued a e r = record {
    holds = r.holds;
    distinct = (Distinct-dropped a log.pending queued distinct).0;
    owned = λ b. ground (
      arith,
      r.owned b,
      ap (λ w. contains b (log.pending ++ (held w ++ queued))) e,
      contains_dropped b a log.pending queued,
      (Distinct-dropped a log.pending queued distinct).1,
      ==_iff b a,
    );
    order =
        r.order
        ∙ ap (λ w. log.fs ++ lines_at gmtime_r log (held w ++ queued)) e
        ∙ sym (
            append_assoc log.fs (line_of gmtime_r log.app_name log.pid (log.outputs a) ∷ [])
              (lines_at gmtime_r log queued));
    told = λ h. cc;
  }
    where
      distinct : Distinct (log.pending ++ a ∷ queued)
      distinct = subst (λ w. Distinct (log.pending ++ (held w ++ queued))) e r.distinct

  writer_step-IsOrdered :
      (log : Logger) (logged : List Output) (queued : List ℕ) (w : Writer)
      → log.writer ≡ w
      → IsOrdered gmtime_r log logged queued
      → (queued' : List ℕ) × IsOrdered gmtime_r (step_at gmtime_r w log) logged queued'
  unfolding step_at
  writer_step-IsOrdered log logged queued dequeuing e r = dequeues-IsOrdered log logged queued e r
  writer_step-IsOrdered log logged queued (writing a) e r =
      (queued, prints-IsOrdered log logged queued a e r)
  writer_step-IsOrdered log logged queued ended e r = (queued, r)

  onto :
      {log : Logger} {logged : List Output} {queued : List ℕ}
      → IsOrdered gmtime_r log logged queued
      → IsOrdered gmtime_r log (logged ++ []) queued
  onto {log} {logged} {queued} r =
      subst (λ out. IsOrdered gmtime_r log out queued) (sym (append-nil logged)) r

  Step-IsOrdered :
      {log log' : Logger} {out : List Output} (logged : List Output) (queued : List ℕ)
      → Step gmtime_r log out log'
      → IsOrdered gmtime_r log logged queued
      → (queued' : List ℕ) × IsOrdered gmtime_r log' (logged ++ out) queued'
  Step-IsOrdered {log} logged queued (fills level call buffer a free short) r = (
    queued,
    onto (fills-IsOrdered gmtime_r log logged queued a (new_output level call buffer) free r),
  )
  Step-IsOrdered {log} logged queued (enqueues before after a is) r =
      (queued ++ a ∷ [], enqueues-IsOrdered gmtime_r log logged queued before after a is r)
  Step-IsOrdered {log} logged queued writes r =
      let (queued', r') = writer_step-IsOrdered log logged queued log.writer refl r in
      (queued', onto r')
  Step-IsOrdered {log} logged queued stops r = (
    queued,
    onto record {
      holds = r.holds;
      distinct = r.distinct;
      owned = r.owned;
      order = r.order;
      told = λ e. refl;
    },
  )

  -- From the log that log_init makes, whatever the threads do in whatever order: the file, then the
  -- output that the writer has, then the queue hold what was put in the queue, in its order; no
  -- output is in use twice, and exactly those in use are allocated.
  pub Steps-IsOrdered :
      (pid : ℕ) (level : LogLevel) (app_name : Option Bytes) {start log : Logger}
      {logged : List Output}
      → log_init true true pid level app_name ≡ some start
      → Steps gmtime_r start logged log
      → (queued : List ℕ) × IsOrdered gmtime_r log logged queued
  unfolding log_init Chain contains Distinct
  Steps-IsOrdered pid level app_name is here = (
    [],
    subst (λ s. IsOrdered gmtime_r s [] []) (some_inj is)
        (record {
          holds = (refl, refl);
          distinct = tt;
          owned = λ a. refl;
          order = refl;
          told = λ e. cc;
        }),
  )
  Steps-IsOrdered pid level app_name is (next {logged = before} steps step) =
      let (queued, r) = Steps-IsOrdered pid level app_name is steps in
      Step-IsOrdered before queued step r
