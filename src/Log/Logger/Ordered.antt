-- ===== src/Log/Logger/Ordered.antt =====
-- The file and the queue together hold what was logged; kept by the threads that log.
use mathlib.Core.Path.{subst}
use mathlib.Core.List.{map, map-append}
use nvhttpd.Base.{
  ℕ, Bool, true, false, List, [], ◌∷◌, ◌++◌, Option, none, some, append_assoc, ◌≡◌, refl, sym, ap,
  ◌∙◌, arith, ◌==◌, if◌then◌else◌,
}
use nvhttpd.Base.Chars.{Bytes}
use nvhttpd.Log.{LogQueue, link, append_output, enqueue, Dequeued, waits, returns}
use nvhttpd.Log.Fifo.{Holds, enqueue-appends}
use nvhttpd.Log.Logger.{
  Output, Writer, dequeuing, writing, ended, Logger, put, filled, without, enqueued, Tm, line_of,
}
use nvhttpd.Log.Logger.Live.{
  contains, Distinct, contains-append, contains-Apart, contains_moved, Distinct-moved,
  Distinct-dropped, contains_parts, without_lem,
}

abbrev pub held : Writer → List ℕ
held dequeuing = []
held (writing a) = a ∷ []
held ended = []

-- The outputs in use: a thread has them, or the writer, or they are in the queue.
abbrev pub live : Logger → List ℕ → List ℕ
live log queued = log.pending ++ (held log.writer ++ queued)

abbrev pub emptied : LogQueue → LogQueue
emptied queue = record queue { head = none; tail = none }

abbrev pub at_stop : LogQueue → Bool → Dequeued
at_stop queue stop = if stop then returns none (emptied queue) else waits

map-put :
    {A B : Type 0} (f : A → B) (a : ℕ) (x : A) (at : ℕ → A) (ys : List ℕ)
    → contains a ys ≡ false
    → map (λ b. f (put a x at b)) ys ≡ map (λ b. f (at b)) ys
unfolding contains
map-put f a x at [] h = refl
map-put f a x at (y ∷ ys) h =
    let other : y == a ≡ false = ground arith in
    rw other (ap (◌∷◌ (f (at y))) (map-put f a x at ys (ground arith)))

pub some_inj : {A : Type 0} {a b : A} → ◌≡◌ {A = Option A} (some a) (some b) → a ≡ b
some_inj h = cc

append_output-stop :
    (tail : Option ℕ) (a : ℕ) (queue : LogQueue) → (append_output tail a queue).stop ≡ queue.stop
unfolding append_output
append_output-stop none a queue = refl
append_output-stop (some t) a queue = refl

enqueue-stop : (queue : LogQueue) (a : ℕ) → (enqueue queue a).stop ≡ queue.stop
unfolding enqueue
enqueue-stop queue a =
    append_output-stop queue.tail a (record queue { next = link a none queue.next })

module _ (gmtime_r : ℕ → Tm) where
  abbrev pub lines : Logger → List Output → List Bytes
  lines log outputs = map (line_of gmtime_r log.app_name log.pid) outputs

  abbrev pub lines_at : Logger → List ℕ → List Bytes
  lines_at log xs = map (λ a. line_of gmtime_r log.app_name log.pid (log.outputs a)) xs

  -- The queue holds these outputs. No output is in use twice, and those in use are the ones that are
  -- allocated. What was logged is in the file, then with the writer, then in the queue.
  pub record IsOrdered (log : Logger) (logged : List Output) (queued : List ℕ) : Type 0 where
    pub holds : Holds log.queue queued
    pub distinct : Distinct (live log queued)
    pub owned : (a : ℕ) → log.is_allocated a ≡ contains a (live log queued)
    pub order : lines log logged ≡ log.fs ++ lines_at log (held log.writer ++ queued)
    pub told : log.writer ≡ ended → log.queue.stop ≡ true

  pub fills-IsOrdered :
      (log : Logger) (logged : List Output) (queued : List ℕ) (a : ℕ) (output : Output)
      → log.is_allocated a ≡ false
      → IsOrdered log logged queued
      → IsOrdered (filled log a output) logged queued
  unfolding contains Distinct
  fills-IsOrdered log logged queued a output free r =
      let fresh : contains a (live log queued) ≡ false = sym (r.owned a) ∙ free in
      let later : contains a (held log.writer ++ queued) ≡ false =
        ground (arith, contains-append a log.pending (held log.writer ++ queued)) in
      record {
        holds = r.holds;
        distinct = (fresh, r.distinct);
        owned = λ b. ground (arith, r.owned b);
        order =
            r.order
            ∙ ap (◌++◌ log.fs) (
                sym (
                  map-put (line_of gmtime_r log.app_name log.pid) a output log.outputs
                    (held log.writer ++ queued) later));
        told = r.told;
      }

  pub enqueues-IsOrdered :
      (log : Logger) (logged : List Output) (queued before after : List ℕ) (a : ℕ)
      → log.pending ≡ before ++ a ∷ after
      → IsOrdered log logged queued
      → IsOrdered (enqueued log a) (logged ++ log.outputs a ∷ []) (queued ++ a ∷ [])
  enqueues-IsOrdered log logged queued before after a is r = record {
    holds = enqueue-appends log.queue a queued r.holds (contains-Apart a queued apart);
    distinct = subst Distinct (sym moved) (Distinct-moved a before rest distinct);
    owned = λ b.
        r.owned b
        ∙ ap (contains b) same
        ∙ contains_moved b a before rest
        ∙ ap (contains b) (sym moved);
    order = simp map-append (rw (r.order) (simp (map-append, append_assoc)));
    told = λ e. enqueue-stop log.queue a ∙ r.told e;
  }
    where
      rest : List ℕ
      rest = after ++ (held log.writer ++ queued)

      same : live log queued ≡ before ++ a ∷ rest
      same = rw is (append_assoc before (a ∷ after) (held log.writer ++ queued))

      distinct : Distinct (before ++ a ∷ rest)
      distinct = subst Distinct same r.distinct

      unused : (contains a before ≡ false) × (contains a rest ≡ false)
      unused = contains_parts a before rest (Distinct-dropped a before rest distinct).1

      kept : without a log.pending ≡ before ++ after
      kept = rw is (without_lem a before after unused.0)

      moved : live (enqueued log a) (queued ++ a ∷ []) ≡ (before ++ rest) ++ a ∷ []
      moved = rw kept (simp append_assoc)

      apart : contains a queued ≡ false
      apart =
          let behind = contains_parts a after (held log.writer ++ queued) unused.1 in
          (contains_parts a (held log.writer) queued behind.1).1
