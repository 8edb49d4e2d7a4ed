-- ===== src/Log/Logger/Names.antt =====
-- What the lines show of the program stays the same.
use nvhttpd.Base.{ℕ, List, none, some, ◌≡◌, refl, ◌∙◌}
use nvhttpd.Log.{Dequeued, waits, returns, dequeue}
use nvhttpd.Log.Logger.{
  Output, Writer, dequeuing, writing, ended, Logger, Tm, dequeued, step_at, Step, fills, enqueues,
  writes, stops, Steps, here, next,
}

module _ (gmtime_r : ℕ → Tm) where
  -- The name and the number of the program, which every line shows, stay.
  abbrev pub SameNames : Logger → Logger → Type 0
  SameNames log log' = (log'.app_name ≡ log.app_name) × (log'.pid ≡ log.pid)

  dequeued-SameNames : (log : Logger) (d : Dequeued) → SameNames log (dequeued gmtime_r log d)
  dequeued-SameNames log waits = (refl, refl)
  dequeued-SameNames log (returns none queue) = (refl, refl)
  dequeued-SameNames log (returns (some a) queue) = (refl, refl)

  step_at-SameNames : (w : Writer) (log : Logger) → SameNames log (step_at gmtime_r w log)
  unfolding step_at
  step_at-SameNames dequeuing log = dequeued-SameNames log (dequeue log.queue)
  step_at-SameNames (writing a) log = (refl, refl)
  step_at-SameNames ended log = (refl, refl)

  Step-SameNames :
      {log log' : Logger} {out : List Output} → Step gmtime_r log out log' → SameNames log log'
  Step-SameNames (fills level call buffer a free short) = (refl, refl)
  Step-SameNames (enqueues before after a is) = (refl, refl)
  Step-SameNames {log} writes = step_at-SameNames log.writer log
  Step-SameNames stops = (refl, refl)

  pub Steps-SameNames :
      {log log' : Logger} {logged : List Output}
      → Steps gmtime_r log logged log'
      → SameNames log log'
  Steps-SameNames here = (refl, refl)
  Steps-SameNames (next steps step) =
      let before = Steps-SameNames steps in
      let last = Step-SameNames step in (last.0 ∙ before.0, last.1 ∙ before.1)
